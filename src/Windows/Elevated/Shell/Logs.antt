-- ===== src/Windows/Elevated/Shell/Logs.antt =====
-- platform/windows/elevated_ops.rs: what the events of a part of the helper's script say when it throws
-- nothing, and that later parts keep them.
use mathlib.Core.List.{Memᴰ}
use procwarden.Common.{ℕ, ◌≡◌, refl, Bool, true, false, Text, if◌then◌else◌}
use procwarden.Windows.Elevated.Shell.{
  Command, Answer, gives, throws, Log, Machine, State, Outcome, done, thrown, exited, Script,
  continue, ◌>>=◌, pure, throw, caught, catch, answered, track, enable_firewall, run,
}

abbrev pub Has : Log → Command → Answer → Type 0
Has log c a = Memᴰ (c, a) log

abbrev pub Grows : Log → Log → Type 0
Grows before after = (e : Command × Answer) → Memᴰ e before → Memᴰ e after

abbrev pub is_done : {A : Type 0} → Outcome A → Bool
is_done (done _) = true
is_done _ = false

-- A property of the log that later events keep.
abbrev pub Stable : (Log → Type 0) → Type 0
Stable q = (before after : Log) → Grows before after → q before → q after

module _ {A : Type 0} where
  unfoldable pub Keeps : Script A → Type 0
  Keeps x = (st : State) → Grows st.log (x st).1.log

  -- A script that throws nothing makes the property true.
  unfoldable pub Makes : (Log → Type 0) → Script A → Type 0
  Makes q x = (st : State) → is_done (x st).0 ≡ true → q (x st).1.log

  pub Keeps-pure : (a : A) → Keeps (pure a)
  unfolding pure Keeps Makes
  Keeps-pure a st e h = h

  caught-Keeps :
      (o : Outcome A) (handler : Text → Script A) (st : State)
      → ((e : Text) → Keeps (handler e))
      → Grows st.log (caught o handler st).1.log
  unfolding Keeps Makes
  caught-Keeps (done _) handler st k e h = h
  caught-Keeps (thrown t) handler st k e h = k t st e h
  caught-Keeps (exited _) handler st k e h = h

  pub Keeps-catch :
      (x : Script A) (handler : Text → Script A)
      → Keeps x
      → ((e : Text) → Keeps (handler e))
      → Keeps (catch x handler)
  unfolding catch Keeps Makes
  Keeps-catch x handler kx kh st e h = caught-Keeps (x st).0 handler (x st).1 kh e (kx st e h)

pub Keeps-throw : (A : Type 0) (e : Text) → Keeps (throw {A = A} e)
unfolding throw Keeps Makes
Keeps-throw A e st _ h = h

module _ {A B : Type 0} where
  continue-Keeps :
      (o : Outcome A) (k : A → Script B) (st : State)
      → ((a : A) → Keeps (k a))
      → Grows st.log (continue o k st).1.log
  unfolding Keeps Makes
  continue-Keeps (done a) k st h e m = h a st e m
  continue-Keeps (thrown _) k st h e m = m
  continue-Keeps (exited _) k st h e m = m

  pub Keeps-bind :
      (x : Script A) (k : A → Script B) → Keeps x → ((a : A) → Keeps (k a)) → Keeps (x >>= k)
  unfolding ◌>>=◌ Keeps Makes
  Keeps-bind x k kx kk st e h = continue-Keeps (x st).0 k (x st).1 kk e (kx st e h)

  -- What the rest makes true.
  continue-Makes :
      (q : Log → Type 0) (o : Outcome A) (k : A → Script B) (st : State)
      → ((a : A) → Makes q (k a))
      → is_done (continue o k st).0 ≡ true
      → q (continue o k st).1.log
  unfolding Keeps Makes
  continue-Makes q (done a) k st h e = h a st e
  continue-Makes q (thrown _) k st h e = absurd (cc e)
  continue-Makes q (exited _) k st h e = absurd (cc e)

  pub Makes-later :
      (q : Log → Type 0) (x : Script A) (k : A → Script B)
      → ((a : A) → Makes q (k a))
      → Makes q (x >>= k)
  unfolding ◌>>=◌ Keeps Makes
  Makes-later q x k h st = continue-Makes q (x st).0 k (x st).1 h

  -- What the first part makes true and the rest keeps.
  continue-first :
      (q : Log → Type 0) (o : Outcome A) (k : A → Script B) (st : State)
      → Stable q
      → ((a : A) → Keeps (k a))
      → (is_done o ≡ true → q st.log)
      → is_done (continue o k st).0 ≡ true
      → q (continue o k st).1.log
  unfolding Keeps Makes
  continue-first q (done a) k st stable kk h e = stable _ _ (kk a st) (h refl)
  continue-first q (thrown _) k st stable kk h e = absurd (cc e)
  continue-first q (exited _) k st stable kk h e = absurd (cc e)

  pub Makes-first :
      (q : Log → Type 0) (x : Script A) (k : A → Script B)
      → Stable q
      → Makes q x
      → ((a : A) → Keeps (k a))
      → Makes q (x >>= k)
  unfolding ◌>>=◌ Keeps Makes
  Makes-first q x k stable h kk st = continue-first q (x st).0 k (x st).1 stable kk (h st)

module _ (m : Machine) where
  answered-Keeps : (c : Command) (a : Answer) → Keeps (answered c a)
  unfolding Keeps Makes
  answered-Keeps c (gives n) st e h = Memᴰ.tail h
  answered-Keeps c (throws _) st e h = Memᴰ.tail h

  pub Keeps-run : (c : Command) → Keeps (run m c)
  unfolding run Keeps Makes
  Keeps-run c st = answered-Keeps c (m.answer st.log c) st

  -- What the rest makes true of the number that a command gives.
  after_answer :
      {B : Type 0} (q : Log → Type 0) (c : Command) (a : Answer) (k : ℕ → Script B) (st : State)
      → ((n : ℕ) (st : State)
          → Has st.log c (gives n)
          → is_done (k n st).0 ≡ true
          → q (k n st).1.log)
      → is_done (continue (answered c a st).0 k (answered c a st).1).0 ≡ true
      → q (continue (answered c a st).0 k (answered c a st).1).1.log
  unfolding Keeps Makes
  after_answer q c (gives n) k st h e = h n _ (Memᴰ.head refl) e
  after_answer q c (throws _) k st h e = absurd (cc e)

  pub Makes-run :
      {B : Type 0} (q : Log → Type 0) (c : Command) (k : ℕ → Script B)
      → ((n : ℕ) (st : State)
          → Has st.log c (gives n)
          → is_done (k n st).0 ≡ true
          → q (k n st).1.log)
      → Makes q (run m c >>= k)
  unfolding run ◌>>=◌ Keeps Makes
  Makes-run q c k h st = after_answer q c (m.answer st.log c) k st h

pub Keeps-track : (path : Text) → Keeps (track path)
unfolding track Keeps Makes
Keeps-track path st e h = h

pub Keeps-enable_firewall : Keeps enable_firewall
unfolding enable_firewall Keeps Makes
Keeps-enable_firewall st e h = h

module _ {A : Type 0} where
  pub Keeps-if : (b : Bool) (x y : Script A) → Keeps x → Keeps y → Keeps (if b then x else y)
  Keeps-if true x y kx ky = kx
  Keeps-if false x y kx ky = ky

  caught-Makes :
      (q : Log → Type 0) (o : Outcome A) (handler : Text → Script A) (st : State)
      → ((e : Text) → Makes q (handler e))
      → (is_done o ≡ true → q st.log)
      → is_done (caught o handler st).0 ≡ true
      → q (caught o handler st).1.log
  unfolding Makes
  caught-Makes q (done _) handler st kh h e = h e
  caught-Makes q (thrown t) handler st kh h e = kh t st e
  caught-Makes q (exited _) handler st kh h e = absurd (cc e)

  pub Makes-catch :
      (q : Log → Type 0) (x : Script A) (handler : Text → Script A)
      → Makes q x
      → ((e : Text) → Makes q (handler e))
      → Makes q (catch x handler)
  unfolding Makes catch
  Makes-catch q x handler mx mh st = caught-Makes q (x st).0 handler (x st).1 mh (mx st)

pub Makes-throw : (A : Type 0) (q : Log → Type 0) (e : Text) → Makes q (throw {A = A} e)
unfolding Makes throw
Makes-throw A q e st ended = absurd (cc ended)
