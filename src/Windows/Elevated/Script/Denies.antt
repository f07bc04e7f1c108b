-- ===== src/Windows/Elevated/Script/Denies.antt =====
-- platform/windows/elevated_ops.rs: what the script of the elevated helper has denied when nothing was
-- thrown.
use mathlib.Core.List.{Memᴰ}
use native.Mathlib.Omega.{arith}
use procwarden.Common.{
  ℕ, zero, suc, ◌≡◌, ◌⊎◌, inl, inr, sym, subst, true, false, Bool-cases, some, List, [], ◌∷◌, ◌++◌,
  Text, lit, trim, is_empty, if◌then◌else◌,
}
use procwarden.Windows.Kernel.{Done}
use procwarden.Windows.Elevated.Shell.{
  Command, test_path, test_container, icacls, netsh, Log, Machine, Params, State, Answer, gives,
  Script, pure, throw, ◌>>◌, run,
}
use procwarden.Windows.Elevated.Shell.Logs.{
  Has, is_done, Stable, Makes, Keeps-pure, Keeps-run, Keeps-enable_firewall, Makes-later,
  Makes-first, Makes-run, Makes-catch, Makes-throw,
}
use procwarden.Windows.Elevated.Script.{
  split_tab, deny, is_allow, rule_access_mode, rule_permission, exit_tested, invoke_icacls,
  invoke_netsh, rule_arguments, with_mode, if_found, apply_rule, log_timed, event, rule_step,
  line_step, each_line, block_rule, block_network, body,
}
use procwarden.Windows.Elevated.Script.Keeps.{
  log_progress-Keeps, invoke_netsh-Keeps, applied-Keeps, each_line-Keeps, block_network-Keeps,
  wait_for_stop-Keeps,
}

module _ (m : Machine) (params : Params) where
  -- A denied path is one that was not there, or whose access list has been changed.
  abbrev pub Denied : Text → Text → Log → Type 0
  Denied kind path log =
      Has log (test_path path) (gives 0)
      ⊎ ((n : ℕ) × Has log (icacls (rule_arguments m params deny path (rule_permission kind n)))
            (gives 0))

  Has-Stable : (c : Command) (a : Answer) → Stable (λ log. Has log c a)
  Has-Stable c a before after grows h = grows _ h

  Denied-Stable : (kind path : Text) → Stable (Denied kind path)
  Denied-Stable kind path before after grows (inl h) = inl (grows _ h)
  Denied-Stable kind path before after grows (inr (n, h)) = inr (n, grows _ h)

  -- A program that is invoked exits with 0, or the script throws.
  exit_tested-zero :
      (program : Text) (arguments : List Text) (c : Command) (n : ℕ) (st : State)
      → Has st.log c (gives n)
      → is_done (exit_tested m params program arguments n st).0 ≡ true
      → Has (exit_tested m params program arguments n st).1.log c (gives 0)
  unfolding pure throw
  exit_tested-zero program arguments c zero st h e = h
  exit_tested-zero program arguments c (suc n) st h e = absurd (cc e)

  invoke_icacls-Makes :
      (arguments : List Text)
      → Makes (λ log. Has log (icacls arguments) (gives 0)) (invoke_icacls m params arguments)
  unfolding invoke_icacls
  invoke_icacls-Makes arguments =
      Makes-run m _ _ _ (exit_tested-zero _ arguments (icacls arguments))

  invoke_netsh-Makes :
      (arguments : List Text)
      → Makes (λ log. Has log (netsh arguments) (gives 0)) (invoke_netsh m params arguments)
  unfolding invoke_netsh
  invoke_netsh-Makes arguments = Makes-run m _ _ _ (exit_tested-zero _ arguments (netsh arguments))

  module _ (kind path : Text) (denies : rule_access_mode kind ≡ some deny) where
    not_allow : is_allow kind ≡ false
    unfolding rule_access_mode
    not_allow = elim (Bool-cases (is_allow kind)) [ inl t ↦ ground arith | inr f ↦ f ]

    with_mode-Makes :
        (n : ℕ) → Makes (Denied kind path) (with_mode m params kind path (some deny) n)
    unfolding Makes
    with_mode-Makes n st e = inr (n, invoke_icacls-Makes _ st e)

    if_found-Makes :
        (n : ℕ) (st : State)
        → Has st.log (test_path path) (gives n)
        → is_done (if_found m params kind path n st).0 ≡ true
        → Denied kind path (if_found m params kind path n st).1.log
    unfolding pure Makes
    if_found-Makes zero st h e = inl h
    if_found-Makes (suc n) st h e =
        Makes-later (Denied kind path) (run m (test_container path))
          (with_mode m params kind path (rule_access_mode kind))
          (λ n.
            subst (λ mode. Makes (Denied kind path) (with_mode m params kind path mode n))
              (sym denies) (with_mode-Makes n))
          st e

    rule_step-Makes : Makes (Denied kind path) (rule_step m params kind path)
    unfolding rule_step apply_rule
    rule_step-Makes = Makes-later _ _ _ (λ _.
        Makes-catch _ _ _
          (Makes-first _ _ _ (Denied-Stable kind path) (Makes-run m _ _ _ if_found-Makes)
            (λ _. applied-Keeps m params kind path))
          (λ e.
            subst
              (λ b. Makes (Denied kind path) (
                if b
                then log_timed m params (λ ms.
                  event m params (lit "skip_allow_error") kind path
                  ++ (lit "|ms=" ++ (ms ++ (lit "|error=" ++ e))))
                  >> pure tt
                else throw e))
              (sym not_allow) (Makes-throw Done _ e)))

  line_step-Makes :
      (line kind path : Text)
      → split_tab line ≡ some (kind, path)
      → is_empty (trim line) ≡ false
      → rule_access_mode (trim kind) ≡ some deny
      → Makes (Denied (trim kind) path) (line_step m params line)
  unfolding line_step
  line_step-Makes line kind path parts filled denies =
      rw (filled, parts) (rule_step-Makes (trim kind) path denies)

  each_line-Makes :
      (line kind path : Text) (lines : List Text)
      → Memᴰ line lines
      → split_tab line ≡ some (kind, path)
      → is_empty (trim line) ≡ false
      → rule_access_mode (trim kind) ≡ some deny
      → Makes (Denied (trim kind) path) (each_line m params lines)
  unfolding each_line
  each_line-Makes line kind path [] h parts filled denies = elim h [ ]
  each_line-Makes line kind path (other ∷ lines) (Memᴰ.head same) parts filled denies =
      Makes-first _ _ _ (Denied-Stable (trim kind) path)
        (subst (λ l. Makes (Denied (trim kind) path) (line_step m params l)) same
          (line_step-Makes line kind path parts filled denies))
        (λ _. each_line-Keeps m params lines)
  each_line-Makes line kind path (other ∷ lines) (Memᴰ.tail h) parts filled denies =
      Makes-later _ _ _ (λ _. each_line-Makes line kind path lines h parts filled denies)

  -- What the lines or the network make true, the ready signal and the wait keep.
  body-Makes :
      (q : Log → Type 0) (fuel : ℕ) (entries : List Text)
      → Stable q
      → ((x : Script ℕ)
          → Makes q
              (x >> each_line m params entries >> block_network m params params.block_network))
      → Makes q (body m params fuel entries)
  unfolding body
  body-Makes q fuel entries stable h =
      Makes-first _ _ _ stable
        (Makes-first _ _ _ stable (Makes-first _ _ _ stable (h _) (λ _. Keeps-run m _))
          (λ _. log_progress-Keeps m params _))
        (λ _. wait_for_stop-Keeps m params fuel)

  -- The two rules of the firewall, when the network is blocked.
  abbrev pub Blocked : ℕ → Log → Type 0
  Blocked zero log = Unit
  Blocked (suc n) log =
      Has log (netsh (block_rule m params params.out_rule (lit "out"))) (gives 0)
      × Has log (netsh (block_rule m params params.in_rule (lit "in"))) (gives 0)

  Blocked-Stable : (n : ℕ) → Stable (Blocked n)
  Blocked-Stable zero before after grows h = tt
  Blocked-Stable (suc n) before after grows (h, h') = (grows _ h, grows _ h')

  out_rule-Makes :
      (n : ℕ)
      → Makes
          (λ log. Has log (netsh (block_rule m params params.out_rule (lit "out"))) (gives 0))
          (block_network m params (suc n))
  unfolding block_network
  out_rule-Makes n =
      let stable = Has-Stable (netsh (block_rule m params params.out_rule (lit "out"))) (gives 0) in
      Makes-first _ _ _ stable
        (Makes-first _ _ _ stable
          (Makes-first _ _ _ stable
            (Makes-first _ _ _ stable (Makes-later _ _ _ (λ _. invoke_netsh-Makes _))
              (λ _. invoke_netsh-Keeps m params _))
            (λ _. Keeps-enable_firewall))
          (λ _. log_progress-Keeps m params _))
        (λ _. Keeps-pure tt)

  in_rule-Makes :
      (n : ℕ)
      → Makes
          (λ log. Has log (netsh (block_rule m params params.in_rule (lit "in"))) (gives 0))
          (block_network m params (suc n))
  unfolding block_network
  in_rule-Makes n =
      let stable = Has-Stable (netsh (block_rule m params params.in_rule (lit "in"))) (gives 0) in
      Makes-first _ _ _ stable
        (Makes-first _ _ _ stable
          (Makes-first _ _ _ stable (Makes-later _ _ _ (λ _. invoke_netsh-Makes _))
            (λ _. Keeps-enable_firewall))
          (λ _. log_progress-Keeps m params _))
        (λ _. Keeps-pure tt)

  block_network-Makes : (n : ℕ) → Makes (Blocked n) (block_network m params n)
  unfolding Makes
  block_network-Makes zero st e = tt
  block_network-Makes (suc n) st e = (out_rule-Makes n st e, in_rule-Makes n st e)

  -- While nothing has been thrown, each path with a line that denies access was either not there when it
  -- was tested or has been denied by an icacls that exited with 0, with the rights of the line's
  -- kind; and where the network is blocked, both firewall rules have been added by a netsh that
  -- exited with 0.
  pub body-IsSecured :
      (fuel : ℕ) (entries : List Text) (line kind path : Text) (st : State)
      → Memᴰ line entries
      → split_tab line ≡ some (kind, path)
      → is_empty (trim line) ≡ false
      → rule_access_mode (trim kind) ≡ some deny
      → is_done (body m params fuel entries st).0 ≡ true
      → Denied (trim kind) path (body m params fuel entries st).1.log
        × Blocked params.block_network (body m params fuel entries st).1.log
  unfolding Makes
  body-IsSecured fuel entries line kind path st listed parts filled denies ended = (
    body-Makes (Denied (trim kind) path) fuel entries (Denied-Stable (trim kind) path)
        (λ x.
          Makes-first (Denied (trim kind) path) _ _ (Denied-Stable (trim kind) path)
            (Makes-later (Denied (trim kind) path) x _
              (λ _. each_line-Makes line kind path entries listed parts filled denies))
            (λ _. block_network-Keeps m params params.block_network))
        st ended,
    body-Makes (Blocked params.block_network) fuel entries (Blocked-Stable params.block_network)
        (λ x.
          Makes-later (Blocked params.block_network) _ _
            (λ _. block_network-Makes params.block_network))
        st ended,
  )
