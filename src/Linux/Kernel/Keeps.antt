-- ===== src/Linux/Kernel/Keeps.antt =====
-- Properties of the calls made so far that an action keeps, whatever the answers are: one rule for
-- each way to build an action.
use mathlib.Core.List.{append_assoc}
use procwarden.Common.{
  ap, ◌∙◌, none, arith, Bool, true, false, if◌then◌else◌, [], ◌∷◌, ◌++◌, ◌≡◌, refl, Result, ok, err,
  IoError,
}
use procwarden.Linux.Kernel.{
  System, Calls, Call, Os, pure, fail, continue, ◌>>=◌, libc, std_fs, ignore,
}

pub record Keeps {ℓ} {A : Type ℓ} (P : Calls → Type 0) (m : Os A) : Type 0 where
  pub at : (calls : Calls) → P calls → P (m calls).1

module _ {ℓ} {A : Type ℓ} {P : Calls → Type 0} where
  pub Keeps-pure : (a : A) → Keeps P (pure a)
  Keeps-pure a = record { at = λ calls h. h }

  pub Keeps-fail : (e : IoError) → Keeps P (fail {A = A} e)
  Keeps-fail e = record { at = λ calls h. h }

  pub Keeps-if : (b : Bool) (m k : Os A) → Keeps P m → Keeps P k → Keeps P (if b then m else k)
  Keeps-if true m k hm hk = hm
  Keeps-if false m k hm hk = hk

  pub Keeps-ignore : (m : Os A) → Keeps P m → Keeps P (ignore m)
  Keeps-ignore m h = record { at = λ calls. h.at calls }

module _ {ℓ κ} {A : Type ℓ} {B : Type κ} {P : Calls → Type 0} where
  Keeps-continue :
      (r : Result IoError A) (f : A → Os B)
      → ((a : A) → Keeps P (f a))
      → (calls : Calls) → P calls
      → P (continue r f calls).1
  Keeps-continue (ok a) f h calls p = (h a).at calls p
  Keeps-continue (err e) f h calls p = p

  pub Keeps-bind :
      (m : Os A) (f : A → Os B) → Keeps P m → ((a : A) → Keeps P (f a)) → Keeps P (m >>= f)
  Keeps-bind m f hm hf = record {
    at = λ calls p. Keeps-continue (m calls).0 f hf (m calls).1 (hm.at calls p);
  }

-- The property holds of one more call.
abbrev pub Grows : (Calls → Type 0) → Call → Type 0
Grows P c = (calls : Calls) → P calls → P (calls ++ (c ∷ []))

pub Keeps-libc : (s : System) (P : Calls → Type 0) (c : Call) → Grows P c → Keeps P (libc s c)
unfolding libc
Keeps-libc s P c grows = record { at = grows }

pub Keeps-std_fs : (s : System) (P : Calls → Type 0) (c : Call) → Grows P c → Keeps P (std_fs s c)
unfolding std_fs
Keeps-std_fs s P c grows = record { at = grows }

-- A property of each call made.
abbrev pub Each : (Call → Type 0) → Calls → Type 0
Each Q [] = Unit
Each Q (c ∷ calls) = Q c × Each Q calls

pub Each-append : (Q : Call → Type 0) (c : Call) → Q c → Grows (Each Q) c
Each-append Q c q [] h = (q, tt)
Each-append Q c q (d ∷ calls) h = (h.0, Each-append Q c q calls h.1)

-- A call has been made when the calls before it satisfied `Q`.
pub record MadeWhen (Q : Calls → Type 0) (c : Call) (calls : Calls) : Type 0 where
  pub before : Calls
  pub after : Calls
  pub split : calls ≡ before ++ (c ∷ after)
  pub held : Q before

pub MadeWhen-append : (Q : Calls → Type 0) (c d : Call) → Grows (MadeWhen Q c) d
MadeWhen-append Q c d calls m = record {
  before = m.before;
  after = m.after ++ (d ∷ []);
  split = ap (λ l. l ++ (d ∷ [])) m.split ∙ append_assoc m.before (c ∷ m.after) (d ∷ []);
  held = m.held;
}

-- A libc call has been made, and has succeeded.
abbrev pub Succeeded : System → Call → Calls → Type 0
Succeeded s c = MadeWhen (λ before. s.errno_of before c ≡ none) c

pub libc_ok :
    (s : System) (c : Call) (calls : Calls)
    → (libc s c calls).0 ≡ ok tt
    → Succeeded s c (libc s c calls).1
unfolding libc
libc_ok s c calls h = record { before = calls; after = []; split = refl; held = ground arith }
