-- ===== src/Windows/Kernel/Holds.antt =====
-- Handles and allocations that are open: those that the calls of a log have opened and not closed.
-- An action holds some when it starts and some, by its result, when it ends. One rule for each way
-- to build an action.
pub mod Rules
use procwarden.Common.{
  ℕ, zero, suc, ◌+◌, ◌≡◌, refl, Bool, true, false, List, [], ◌∷◌, ◌++◌, ◌==◌, if◌then◌else◌, Result,
  ok, err, arith,
}
use procwarden.Windows.Kernel.{
  System, Call, Answer, Log, Win, pure, ◌>>=◌, ◌>>?◌, continue, call, gives, close_handle,
  local_free, get_named_security_info, get_security_info, set_entries_in_acl, open_device,
  create_pipe, create_job_object, convert_string_sid, initialize_attribute_list,
  delete_attribute_list, create_process, shell_execute_runas, open_process_token, create_profile,
  derive_sid, convert_sid_to_string, engine_open, engine_close, get_app_id, free_memory,
}

-- A value that a function has to give back: a kernel object, a block of `LocalAlloc`, an attribute
-- list, a filter engine or a block of the filter engine.
pub data Resource : Type 0 where
  handle memory attributes engine blob : ℕ → Resource

abbrev equals : ℕ → ℕ → ℕ
equals zero m = 0
equals (suc n) m = if suc n == m then 1 else 0

-- Whether two resources are the same and not null, as a number.
abbrev same : Resource → Resource → ℕ
same (handle n) (handle m) = equals n m
same (memory n) (memory m) = equals n m
same (attributes n) (attributes m) = equals n m
same (engine n) (engine m) = equals n m
same (blob n) (blob m) = equals n m
same _ _ = 0

abbrev pub count : Resource → List Resource → ℕ
count r [] = 0
count r (x ∷ xs) = same r x + count r xs

abbrev pub opens : Call → Answer → List Resource
opens create_pipe (gives read write) = handle read ∷ handle write ∷ []
opens create_job_object (gives job _) = handle job ∷ []
opens (create_process _) (gives process thread) = handle process ∷ handle thread ∷ []
opens (shell_execute_runas _ _) (gives process _) = handle process ∷ []
opens open_process_token (gives token _) = handle token ∷ []
opens (open_device _ _) (gives device _) = handle device ∷ []
opens (get_named_security_info _) (gives descriptor _) = memory descriptor ∷ []
opens (get_security_info _) (gives descriptor _) = memory descriptor ∷ []
opens (set_entries_in_acl _ _) (gives dacl _) = memory dacl ∷ []
opens (convert_string_sid _) (gives sid _) = memory sid ∷ []
opens (create_profile _ _) (gives sid _) = memory sid ∷ []
opens (derive_sid _) (gives sid _) = memory sid ∷ []
opens (convert_sid_to_string _) (gives text _) = memory text ∷ []
opens (initialize_attribute_list _ list) (gives _ _) = attributes list ∷ []
opens engine_open (gives opened _) = engine opened ∷ []
opens (get_app_id _) (gives id _) = blob id ∷ []
opens _ _ = []

abbrev pub closes : Call → List Resource
closes (close_handle h) = handle h ∷ []
closes (local_free p) = memory p ∷ []
closes (delete_attribute_list list) = attributes list ∷ []
closes (engine_close e) = engine e ∷ []
closes (free_memory b) = blob b ∷ []
closes _ = []

abbrev pub opened : Resource → Log → ℕ
opened r [] = 0
opened r ((c, a) ∷ log) = count r (opens c a) + opened r log

abbrev pub closed : Resource → Log → ℕ
closed r [] = 0
closed r ((c, a) ∷ log) = count r (closes c) + closed r log

-- From the log `log`, at which `held` are open, to the log `log'`, at which `left` are.
abbrev pub Moves : List Resource → List Resource → Log → Log → Type 0
Moves held left log log' =
    (r : Resource)
    → opened r log' + closed r log + count r held ≡ opened r log + closed r log' + count r left

pub record Holds {ℓ} {A : Type ℓ} (held : List Resource) (left : A → List Resource) (m : Win A)
    : Type 0 where
  pub at : (log : Log) → Moves held (left (m log).0) log (m log).1

abbrev pub nothing {ℓ} : {A : Type ℓ} → A → List Resource
nothing _ = []

-- What a result leaves open; an error leaves nothing.
abbrev pub if_ok {ℓ κ} :
    {E : Type ℓ} {A : Type κ} → (A → List Resource) → Result E A → List Resource
if_ok left (ok a) = left a
if_ok left (err e) = []

pub count-append :
    (r : Resource) (xs ys : List Resource) → count r (xs ++ ys) ≡ count r xs + count r ys
count-append r [] ys = omega arith
count-append r (x ∷ xs) ys = omega (arith, count-append r xs ys)

pub count_snoc :
    (r : Resource) (x : Resource) (xs : List Resource) → count r (x ∷ xs) ≡ count r (xs ++ (x ∷ []))
count_snoc r x xs = omega (arith, count-append r xs (x ∷ []))

pub count_swap : (r : Resource) (xs ys : List Resource) → count r (xs ++ ys) ≡ count r (ys ++ xs)
count_swap r xs ys = omega (arith, count-append r xs ys, count-append r ys xs)

pub Holds-pure {ℓ} :
    {A : Type ℓ} {held : List Resource} {left : A → List Resource} (a : A)
    → ((r : Resource) → count r held ≡ count r (left a))
    → Holds held left (pure a)
unfolding pure
Holds-pure a e = record { at = λ log r. omega (arith, e r) }

pub Holds-bind {ℓ κ} :
    {A : Type ℓ} {B : Type κ} {held : List Resource} {mid : A → List Resource}
    {left : B → List Resource} {m : Win A} {f : A → Win B}
    → Holds held mid m
    → ((a : A) → Holds (mid a) left (f a))
    → Holds held left (m >>= f)
unfolding ◌>>=◌
Holds-bind {m} {f} hm hf = record {
  at = λ log r. omega (arith, hm.at log r, (hf (m log).0).at (m log).1 r);
}

pub Holds-call {ℓ} :
    {A : Type ℓ} (s : System) (held : List Resource) {left : A → List Resource} (c : Call)
    {k : Answer → Win A}
    → ((a : Answer) → Holds (opens c a ++ held) left (k a))
    → Holds (closes c ++ held) left (call s c >>= k)
unfolding ◌>>=◌ call
Holds-call s held c {k} hk = record {
  at = λ log r.
      let a = s.answer log c in
      omega (
        arith,
        (hk a).at ((c, a) ∷ log) r,
        count-append r (opens c a) held,
        count-append r (closes c) held,
      );
}

-- Other resources stay open meanwhile.
pub Holds-frame {ℓ} :
    {A : Type ℓ} {held : List Resource} {left : A → List Resource} {m : Win A}
    (others : List Resource)
    → Holds held left m
    → Holds (held ++ others) (λ a. left a ++ others) m
Holds-frame {held} {left} {m} others h = record {
  at = λ log r.
      omega (arith, h.at log r, count-append r held others, count-append r (left (m log).0) others);
}

-- The order of the resources does not matter.
pub Holds-reorder {ℓ} :
    {A : Type ℓ} {held held' : List Resource} {left : A → List Resource} {m : Win A}
    → ((r : Resource) → count r held' ≡ count r held)
    → Holds held left m
    → Holds held' left m
Holds-reorder e h = record { at = λ log r. omega (arith, h.at log r, e r) }

pub Holds-if {ℓ} :
    {A : Type ℓ} {held : List Resource} {left : A → List Resource} (b : Bool) {m k : Win A}
    → (b ≡ true → Holds held left m)
    → (b ≡ false → Holds held left k)
    → Holds held left (if b then m else k)
Holds-if true hm hk = hm refl
Holds-if false hm hk = hk refl

Holds-continue {ℓ κ μ} :
    {E : Type ℓ} {A : Type κ} {B : Type μ} {mid : A → List Resource} {left : B → List Resource}
    (f : A → Win (Result E B))
    → ((a : A) → Holds (mid a) (if_ok left) (f a))
    → (r : Result E A) → Holds (if_ok mid r) (if_ok left) (continue f r)
Holds-continue f hf (ok a) = hf a
Holds-continue f hf (err e) = Holds-pure (err e) λ r. refl

-- `?`: an error ends the action, and with it whatever the first part left is to be nothing.
pub Holds-try {ℓ κ μ} :
    {E : Type ℓ} {A : Type κ} {B : Type μ} {held : List Resource} {mid : A → List Resource}
    {left : B → List Resource} {m : Win (Result E A)} {f : A → Win (Result E B)}
    → Holds held (if_ok mid) m
    → ((a : A) → Holds (mid a) (if_ok left) (f a))
    → Holds held (if_ok left) (m >>? f)
Holds-try {f} hm hf = Holds-bind hm (Holds-continue f hf)

-- Null is no resource.
equals_null : (n : ℕ) → equals n 0 ≡ 0
equals_null zero = refl
equals_null (suc n) = ground arith

same_null_memory : (r : Resource) → same r (memory 0) ≡ 0
same_null_memory (memory n) = equals_null n
same_null_memory (handle n) = refl
same_null_memory (attributes n) = refl
same_null_memory (engine n) = refl
same_null_memory (blob n) = refl

same_null_handle : (r : Resource) → same r (handle 0) ≡ 0
same_null_handle (memory n) = refl
same_null_handle (handle n) = equals_null n
same_null_handle (attributes n) = refl
same_null_handle (engine n) = refl
same_null_handle (blob n) = refl

same_null_engine : (r : Resource) → same r (engine 0) ≡ 0
same_null_engine (engine n) = equals_null n
same_null_engine (memory n) = refl
same_null_engine (handle n) = refl
same_null_engine (attributes n) = refl
same_null_engine (blob n) = refl

same_null_blob : (r : Resource) → same r (blob 0) ≡ 0
same_null_blob (blob n) = equals_null n
same_null_blob (memory n) = refl
same_null_blob (handle n) = refl
same_null_blob (attributes n) = refl
same_null_blob (engine n) = refl

module _ {ℓ} {A : Type ℓ} {held : List Resource} {left : A → List Resource} {m : Win A} where
  pub Holds-null_engine : Holds held left m → Holds (engine 0 ∷ held) left m
  Holds-null_engine h = Holds-reorder (λ r. omega (arith, same_null_engine r)) h

  pub Holds-null_blob : Holds held left m → Holds (blob 0 ∷ held) left m
  Holds-null_blob h = Holds-reorder (λ r. omega (arith, same_null_blob r)) h

  pub Holds-null_memory : Holds held left m → Holds (memory 0 ∷ held) left m
  Holds-null_memory h = Holds-reorder (λ r. omega (arith, same_null_memory r)) h

  pub Holds-null_handle : Holds held left m → Holds (handle 0 ∷ held) left m
  Holds-null_handle h = Holds-reorder (λ r. omega (arith, same_null_handle r)) h

-- One stretch of the log after another.
pub Moves-trans :
    (held mid left : List Resource) (log log' log'' : Log)
    → Moves held mid log log'
    → Moves mid left log' log''
    → Moves held left log log''
Moves-trans held mid left log log' log'' h k r = omega (arith, h r, k r)

pub Moves-frame :
    (held left others : List Resource) (log log' : Log)
    → Moves held left log log'
    → Moves (held ++ others) (left ++ others) log log'
Moves-frame held left others log log' h r =
    omega (arith, h r, count-append r held others, count-append r left others)
