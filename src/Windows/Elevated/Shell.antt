-- ===== src/Windows/Elevated/Shell.antt =====
-- platform/windows/elevated_ops.rs: what PowerShell gives the script of the elevated helper. A command
-- that the script runs is an event, and its answer, a number or an exception's message, is a machine's.
pub mod Logs
use procwarden.Common.{
  ℕ, zero, suc, Bool, true, false, ◌||◌, Option, none, some, List, [], ◌∷◌, ◌++◌, Text, lit, trim,
  join_with, decimal, eq_ignore_ascii_case, is_empty, length, ◌==◌, if◌then◌else◌, reverse,
}
use procwarden.Windows.Kernel.{Done}

pub data Command : Type 0 where
  test_path test_container get_content : Text → Command
  set_content add_content : Text → Text → Command
  icacls netsh : List Text → Command
  is_in_role : Command
  start_sleep : ℕ → Command

-- 0 is a program that succeeds and a test that does not.
pub data Answer : Type 0 where
  gives : ℕ → Answer
  throws : Text → Answer

-- Newest first.
abbrev pub Log : Type 0
Log = List (Command × Answer)

pub record Machine : Type 0 where
  pub answer : Log → Command → Answer
  pub lines : Log → List Text
  pub date : Log → Text
  pub elapsed : Log → ℕ

pub record Params : Type 0 where
  pub sid : Text
  pub spec_file : Text
  pub stop_file : Text
  pub ready_file : Text
  pub progress_file : Text
  pub executable : Text
  pub out_rule : Text
  pub in_rule : Text
  pub block_network : ℕ

-- What the script's `finally` reads.
pub record State : Type 0 where
  pub log : Log
  pub applied_paths : List Text
  pub firewall_enabled : Bool

pub data Outcome (A : Type 0) : Type 0 where
  done : A → Outcome A
  thrown : Text → Outcome A
  exited : ℕ → Outcome A

abbrev pub Script : Type 0 → Type 0
Script A = State → Outcome A × State

module _ {A B : Type 0} where
  abbrev continue : Outcome A → (A → Script B) → Script B
  continue (done a) k st = k a st
  continue (thrown e) k st = (thrown e, st)
  continue (exited code) k st = (exited code, st)

  infixl 5 ◌>>=◌
  unfoldable pub ◌>>=◌ : Script A → (A → Script B) → Script B
  (x >>= k) st = continue (x st).0 k (x st).1

module _ {A : Type 0} where
  unfoldable pub pure : A → Script A
  pure a st = (done a, st)

  unfoldable pub throw : Text → Script A
  throw e st = (thrown e, st)

  abbrev caught : Outcome A → (Text → Script A) → Script A
  caught (thrown e) handler st = handler e st
  caught outcome handler st = (outcome, st)

  unfoldable pub catch : Script A → (Text → Script A) → Script A
  catch x handler st = caught (x st).0 handler (x st).1

infixl 5 ◌>>◌
abbrev pub ◌>>◌ : {A B : Type 0} → Script A → Script B → Script B
x >> y = x >>= λ _. y

abbrev answered : Command → Answer → Script ℕ
answered c (gives n) st = (done n, record st { log = (c, gives n) ∷ st.log })
answered c (throws e) st = (thrown e, record st { log = (c, throws e) ∷ st.log })

unfoldable pub track : Text → Script Done
track path st = (done tt, record st { applied_paths = st.applied_paths ++ (path ∷ []) })

unfoldable pub enable_firewall : Script Done
enable_firewall st = (done tt, record st { firewall_enabled = true })

module _ (m : Machine) where
  unfoldable pub run : Command → Script ℕ
  run c st = answered c (m.answer st.log c) st
