-- ===== src/Linux/Kernel/Makes.antt =====
-- Actions that make known calls when they end well, each of which the system has accepted.
use mathlib.Core.List.{append_assoc, append-nil}
use procwarden.Common.{◌≡◌, sym, ◌∙◌, ap, subst, none, List, [], ◌∷◌, ◌++◌, ok}
use procwarden.Linux.Kernel.{System, Calls, Call, landlock_set_no_new_privs, Os, pure, ◌>>◌, >>=_ok}

-- A crate's call has not been refused. Setting the flag of no new privileges has no answer.
abbrev pub IsAccepted : System → Calls → Call → Type 0
IsAccepted s before landlock_set_no_new_privs = Unit
IsAccepted s before c = s.refusal_of before c ≡ none

-- None of the calls, made after the calls `before`, has been refused.
abbrev pub AllAccepted : System → Calls → List Call → Type 0
AllAccepted s before [] = Unit
AllAccepted s before (c ∷ calls) = IsAccepted s before c × AllAccepted s (before ++ (c ∷ [])) calls

pub AllAccepted-append :
    (s : System) (before a b : List Call)
    → AllAccepted s before a
    → AllAccepted s (before ++ a) b
    → AllAccepted s before (a ++ b)
AllAccepted-append s before [] b ha hb = subst (λ l. AllAccepted s l b) (append-nil before) hb
AllAccepted-append s before (c ∷ a) b (h, ha) hb = (
  h,
  AllAccepted-append s (before ++ (c ∷ [])) a b ha
      (subst (λ l. AllAccepted s l b) (sym (append_assoc before (c ∷ []) a)) hb),
)

-- If the action ends well, it has made exactly these calls, and all have been accepted.
abbrev pub Makes : System → Os (Unit {0}) → List Call → Type 0
Makes s m made =
    (calls : Calls) → (m calls).0 ≡ ok tt → ((m calls).1 ≡ calls ++ made) × AllAccepted s calls made

pub pure-Makes : (s : System) → Makes s (pure tt) []
pure-Makes s calls h = (sym (append-nil calls), tt)

pub >>-Makes :
    (s : System) (m k : Os (Unit {0})) (a b : List Call)
    → Makes s m a
    → Makes s k b
    → Makes s (m >> k) (a ++ b)
>>-Makes s m k a b hm hk calls h =
    let (_, r, e) = >>=_ok m (λ _. k) calls h in
    let (made, accepted) = hm calls r in
    let (made', accepted') = hk (m calls).1 (rw e at h) in
    (
      rw e (made' ∙ (ap (λ l. l ++ b) made ∙ append_assoc calls a b)),
      AllAccepted-append s calls a b accepted (subst (λ l. AllAccepted s l b) made accepted'),
    )

-- What holds of the calls when the action ends well, by its last part.
abbrev pub Ends : (Calls → Type 0) → Os (Unit {0}) → Type 0
Ends Q m = (calls : Calls) → (m calls).0 ≡ ok tt → Q (m calls).1

pub >>-Ends : (Q : Calls → Type 0) (m k : Os (Unit {0})) → Ends Q k → Ends Q (m >> k)
>>-Ends Q m k hk calls h =
    let (_, r, e) = >>=_ok m (λ _. k) calls h in
    subst (λ p. Q p.1) (sym e) (hk (m calls).1 (rw e at h))
