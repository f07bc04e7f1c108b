-- ===== src/Windows/Kernel/Holds/Rules.antt =====
-- Rules by which `search` follows an action call by call.
use mathlib.Core.List.{append-nil}
use procwarden.Common.{
  ℤ, Text, ℕ, zero, suc, map, ◌≡◌, refl, subst, List, [], ◌∷◌, ◌++◌, Result, ok, err, Bool, true,
  false, if◌then◌else◌,
}
use procwarden.Output.{SandboxError}
use procwarden.Windows.Kernel.{
  System, Call, Answer, Log, Win, pure, asks, ◌>>=◌, ◌>>◌, call, tell, Done, fails, gives,
  close_handle, local_free, delete_attribute_list, engine_close, free_memory, free_unless_null,
  free_all, close_many, get_last_error_code, last_error, fail_last,
}
use procwarden.Windows.Kernel.Holds.{
  Resource, handle, memory, attributes, engine, blob, Holds, opens, closes, Holds-pure, Holds-bind,
  Holds-call, Holds-null_memory, Holds-null_handle,
}

module _ {ℓ} {A : Type ℓ} {held : List Resource} {left : A → List Resource} where
  -- A call, by its answer.
  pub Holds-ask :
      (s : System) (c : Call) (k : Answer → Win A)
      → closes c ≡ []
      → ((code : ℕ) → Holds (opens c (fails code) ++ held) left (k (fails code)))
      → ((x y : ℕ) → Holds (opens c (gives x y) ++ held) left (k (gives x y)))
      → Holds held left (call s c >>= k)
  Holds-ask s c k e hf hg =
      subst (λ closing. Holds (closing ++ held) left (call s c >>= k)) e
        (Holds-call s held c (by_answer hf hg))
    where
      by_answer :
          ((code : ℕ) → Holds (opens c (fails code) ++ held) left (k (fails code)))
          → ((x y : ℕ) → Holds (opens c (gives x y) ++ held) left (k (gives x y)))
          → (a : Answer) → Holds (opens c a ++ held) left (k a)
      by_answer hf hg (fails code) = hf code
      by_answer hf hg (gives x y) = hg x y

  Holds-told :
      (s : System) (c : Call) (k : Win A)
      → ((a : Answer) → opens c a ≡ [])
      → Holds held left k
      → Holds (closes c ++ held) left (tell s c >> k)
  unfolding tell
  Holds-told s c k quiet h =
      Holds-bind {mid = λ _. held} (Holds-call s held c λ a. rw (quiet a) (Holds-pure tt λ r. refl))
        λ _. h

  -- A call that neither opens nor closes.
  pub Holds-note :
      (s : System) (c : Call) (k : Win A)
      → closes c ≡ []
      → ((a : Answer) → opens c a ≡ [])
      → Holds held left k
      → Holds held left (tell s c >> k)
  Holds-note s c k e quiet h =
      subst (λ closing. Holds (closing ++ held) left (tell s c >> k)) e (Holds-told s c k quiet h)

  pub Holds-close_handle :
      (s : System) (h : ℕ) (k : Win A)
      → Holds held left k
      → Holds (handle h ∷ held) left (tell s (close_handle h) >> k)
  Holds-close_handle s h k rest = Holds-told s (close_handle h) k (λ a. refl) rest

  pub Holds-local_free :
      (s : System) (p : ℕ) (k : Win A)
      → Holds held left k
      → Holds (memory p ∷ held) left (tell s (local_free p) >> k)
  Holds-local_free s p k rest = Holds-told s (local_free p) k (λ a. refl) rest

  pub Holds-delete_attribute_list :
      (s : System) (list : ℕ) (k : Win A)
      → Holds held left k
      → Holds (attributes list ∷ held) left (tell s (delete_attribute_list list) >> k)
  Holds-delete_attribute_list s list k rest =
      Holds-told s (delete_attribute_list list) k (λ a. refl) rest

  pub Holds-engine_close :
      (s : System) (e : ℕ) (k : Win A)
      → Holds held left k
      → Holds (engine e ∷ held) left (tell s (engine_close e) >> k)
  Holds-engine_close s e k rest = Holds-told s (engine_close e) k (λ a. refl) rest

  pub Holds-free_memory :
      (s : System) (b : ℕ) (k : Win A)
      → Holds held left k
      → Holds (blob b ∷ held) left (tell s (free_memory b) >> k)
  Holds-free_memory s b k rest = Holds-told s (free_memory b) k (λ a. refl) rest

  pub Holds-done : (a : A) → held ≡ left a → Holds held left (pure a)
  Holds-done a e = Holds-pure a λ r. rw e refl

  pub Holds-asks {κ} :
      {B : Type κ} (f : Log → B) (k : B → Win A)
      → ((b : B) → Holds held left (k b))
      → Holds held left (asks f >>= k)
  unfolding asks ◌>>=◌
  Holds-asks f k h = record { at = λ log. (h (f log)).at log }

  pub Holds-asked : (f : Log → A) → ((a : A) → held ≡ left a) → Holds held left (asks f)
  unfolding asks pure
  Holds-asked f e = record { at = λ log. (Holds-done (f log) (e (f log))).at log }

  pub Holds-pure_bind {κ} :
      {B : Type κ} (b : B) (f : B → Win A) → Holds held left (f b) → Holds held left (pure b >>= f)
  unfolding pure ◌>>=◌
  Holds-pure_bind b f h = record { at = h.at }

  pub Holds-assoc {κ μ} :
      {B : Type κ} {C : Type μ} (m : Win B) (f : B → Win C) (g : C → Win A)
      → Holds held left (m >>= λ b. f b >>= g)
      → Holds held left ((m >>= f) >>= g)
  unfolding ◌>>=◌
  Holds-assoc m f g h = record { at = h.at }

-- A call at the end.
pub Holds-last :
    {held : List Resource} {left : Done → List Resource} (m : Win Done)
    → Holds held left (m >> pure tt)
    → Holds held left m
unfolding pure ◌>>=◌
Holds-last m h = record { at = h.at }

pub ruleset call_rules = (
  Holds-ask, Holds-note, Holds-close_handle, Holds-local_free, Holds-delete_attribute_list,
  Holds-engine_close, Holds-free_memory, Holds-asks, Holds-pure_bind, Holds-assoc, Holds-done, refl,
)

module _ (s : System) where
  pub free_unless_null-Holds_last :
      {held : List Resource} (p : ℕ) → Holds (memory p ∷ held) (λ _. held) (free_unless_null s p)
  unfolding free_unless_null
  free_unless_null-Holds_last zero = Holds-null_memory (search call_rules)
  free_unless_null-Holds_last (suc p) = Holds-last _ (search call_rules)

module _ {A : Type 0} {held : List Resource} {left : A → List Resource} (s : System) where
  pub free_unless_null-Holds :
      (p : ℕ) (k : Win A)
      → Holds held left k
      → Holds (memory p ∷ held) left (free_unless_null s p >> k)
  free_unless_null-Holds p k h = Holds-bind (free_unless_null-Holds_last s p) λ _. h

  pub free_all-Holds :
      (ps : List ℕ) (k : Win A)
      → Holds held left k
      → Holds (map memory ps ++ held) left (free_all s ps >> k)
  unfolding free_all
  free_all-Holds [] k h = search (call_rules, h)
  free_all-Holds (p ∷ ps) k h =
      Holds-assoc _ _ _ (Holds-bind (free_unless_null-Holds_last s p) λ _. free_all-Holds ps k h)

  pub close_many-Holds :
      (handles : List ℕ) (k : Win A)
      → Holds held left k
      → Holds (map handle handles ++ held) left (close_many s handles >> k)
  unfolding close_many
  close_many-Holds [] k h = search (call_rules, h)
  close_many-Holds (zero ∷ handles) k h = Holds-null_handle (close_many-Holds handles k h)
  close_many-Holds (suc n ∷ handles) k h =
      Holds-assoc _ _ _ (Holds-close_handle s (suc n) _ (close_many-Holds handles k h))

module _ {A : Type 0} {left : A → List Resource} (s : System) where
  pub free_all-Holds_last :
      (ps : List ℕ) (k : Win A) → Holds [] left k → Holds (map memory ps) left (free_all s ps >> k)
  free_all-Holds_last ps k h =
      subst (λ held. Holds held left (free_all s ps >> k)) (append-nil (map memory ps))
        (free_all-Holds {held = []} {left = left} s ps k h)

module _ (s : System) where
  pub get_last_error_code-Holds :
      {A : Type 0} {held : List Resource} {left : A → List Resource} (k : ℤ → Win A)
      → ((code : ℤ) → Holds held left (k code))
      → Holds held left (get_last_error_code s >>= k)
  unfolding get_last_error_code
  get_last_error_code-Holds k h = search (call_rules, h)

  pub last_error-Holds :
      {A : Type 0} {held : List Resource} {left : A → List Resource} (context : Text)
      (k : SandboxError → Win A)
      → ((e : SandboxError) → Holds held left (k e))
      → Holds held left (last_error s context >>= k)
  unfolding last_error
  last_error-Holds context k h =
      Holds-assoc _ _ _ (get_last_error_code-Holds _ λ code. search (call_rules, h))

  pub fail_last-Holds :
      {A : Type 0} {left : Result SandboxError A → List Resource} (context : Text)
      → ((e : SandboxError) → [] ≡ left (err e))
      → Holds [] left (fail_last s {A = A} context)
  unfolding fail_last
  fail_last-Holds context none_left =
      last_error-Holds context _ λ e. Holds-done (err e) (none_left e)

pub ruleset holds_rules = (
  call_rules, free_unless_null-Holds_last, free_unless_null-Holds, get_last_error_code-Holds,
  last_error-Holds, fail_last-Holds, free_all-Holds, free_all-Holds_last, close_many-Holds,
)
