-- ===== src/Session/Status/Paths.antt =====
-- Sequences of status transitions: final statuses, and the way to a success.
use say_ur_intent.Prelude.{Bool, true, false, List, [], ◌∷◌, ◌⊎◌, inl, inr, ◌≡◌, refl, arith}
use say_ur_intent.Session.Types.{SessionStatus, same_status_iff}
use say_ur_intent.Session.Errors.{Outcome, ok, err, Outcome-cases}
use say_ur_intent.Session.Status.{
  is_final_session_status, transition_status, allowed_transitions, includes,
}

-- Transitions one after another, up to the first that is refused.
unfoldable pub follow : SessionStatus → List SessionStatus → Outcome SessionStatus
unfolding transition_status
follow s [] = ok s
follow s (t ∷ ts) = elim (transition_status s t) [ err e ↦ err e | ok s' ↦ follow s' ts ]

final_stays :
    (s t s' : SessionStatus)
    → is_final_session_status s ≡ true
    → transition_status s t ≡ ok s'
    → s' ≡ s
unfolding transition_status is_final_session_status allowed_transitions includes
final_stays SessionStatus.success t s' f e = ground arith
final_stays SessionStatus.failure t s' f e = ground arith
final_stays SessionStatus.expired t s' f e = ground arith
final_stays _ t s' f e = absurd (ground arith)

-- Once a status is final, no sequence of transitions leaves it.
pub follow-final :
    (s s' : SessionStatus) (path : List SessionStatus)
    → is_final_session_status s ≡ true
    → follow s path ≡ ok s'
    → s' ≡ s
unfolding follow
follow-final s s' [] f e = ground arith
follow-final s s' (t ∷ ts) f e = elim (Outcome-cases (transition_status s t)) [
  | inr (x, p) ↦ absurd (ground arith)
  | inl (u, p) ↦ let same = final_stays s t u f p in follow-final s s' ts f (ground (arith, same))
]

-- The statuses from which a success is only reached through `milestone`.
abbrev before : SessionStatus → SessionStatus → Bool
before SessionStatus.wallet_connected SessionStatus.proposed = true
before SessionStatus.wallet_connected SessionStatus.awaiting_wallet = true
before SessionStatus.ready_for_wallet_review SessionStatus.proposed = true
before SessionStatus.ready_for_wallet_review SessionStatus.awaiting_wallet = true
before SessionStatus.ready_for_wallet_review SessionStatus.wallet_connected = true
before SessionStatus.ready_for_wallet_review SessionStatus.refresh_required = true
before SessionStatus.ready_for_wallet_review SessionStatus.blocked = true
before SessionStatus.signed_pending_result SessionStatus.success = false
before SessionStatus.signed_pending_result SessionStatus.signed_pending_result = false
before SessionStatus.signed_pending_result _ = true
before _ SessionStatus.failure = true
before _ SessionStatus.expired = true
before _ _ = false

abbrev is_milestone : SessionStatus → Bool
is_milestone SessionStatus.wallet_connected = true
is_milestone SessionStatus.ready_for_wallet_review = true
is_milestone SessionStatus.signed_pending_result = true
is_milestone _ = false

step_before :
    (m s t s' : SessionStatus)
    → is_milestone m ≡ true
    → before m s ≡ true
    → transition_status s t ≡ ok s'
    → (s' ≡ t) × ((t ≡ m) ⊎ (before m t ≡ true))
unfolding transition_status allowed_transitions includes
step_before SessionStatus.wallet_connected s t s' i b e = ground arith
step_before SessionStatus.ready_for_wallet_review s t s' i b e = ground arith
step_before SessionStatus.signed_pending_result s t s' i b e = ground arith
step_before _ s t s' i b e = absurd (ground arith)

passes :
    (m s : SessionStatus) (path : List SessionStatus)
    → is_milestone m ≡ true
    → before m s ≡ true
    → follow s path ≡ ok SessionStatus.success
    → includes path m ≡ true
unfolding follow includes
passes m s [] i b e = absurd (ground arith)
passes m s (t ∷ ts) i b e = elim (Outcome-cases (transition_status s t)) [
  | inr (x, p) ↦ absurd (ground arith)
  | inl (u, p) ↦
      let (same, next) = step_before m s t u i b p in
      elim next [
        | inl q ↦ ground (arith, same_status_iff t m)
        | inr q ↦ let rest = passes m t ts i q (ground (arith, same)) in ground (arith, rest)
      ]
]

-- A sequence of transitions that takes a new session to a success passes through the connected
-- wallet, the review that is ready for the wallet, and the signed and pending result.
pub follow-success :
    (path : List SessionStatus)
    → follow SessionStatus.proposed path ≡ ok SessionStatus.success
    → (includes path SessionStatus.wallet_connected ≡ true)
      × (includes path SessionStatus.ready_for_wallet_review ≡ true)
      × (includes path SessionStatus.signed_pending_result ≡ true)
follow-success path e = (
  passes SessionStatus.wallet_connected SessionStatus.proposed path refl refl e,
  passes SessionStatus.ready_for_wallet_review SessionStatus.proposed path refl refl e,
  passes SessionStatus.signed_pending_result SessionStatus.proposed path refl refl e,
)
