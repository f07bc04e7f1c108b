-- ===== src/Windows/Acl/Loops.antt =====
-- platform/windows/acl.rs: the entry that one loop of a plan leaves on a path, and what comes after
-- the loops.
use mathlib.Core.List.{append_assoc, append-nil}
use procwarden.Common.{
  subst, ℕ, ◌+◌, lit, zero, suc, ◌≡◌, refl, sym, ◌∙◌, Bool, true, false, Option, some, List, [],
  ◌∷◌, ◌++◌, Text, text_eq, some_of, if◌then◌else◌, Result, ok, err, arith,
}
use procwarden.Output.{SandboxError}
use procwarden.Windows.Kernel.{
  System, Answer, fails, gives, Log, Win, pure, ◌>>=◌, call, tell, set_entries_in_acl,
  get_security_info, open_device, AccessMode, set_access, deny_access, Entry,
}
use procwarden.Windows.Acl.{
  AclRollback, Tracked, track, add_each, after_added, after_each, null_device_entries,
  null_device_read, null_device_opened, allow_null_device, add_deny_no_access_ace,
  add_deny_write_ace, add_deny_access_ace, add_allow_access_ace, add_allow_read_only_ace,
  add_allow_read_write_ace, file_generic_write, read_only_allow_mask, read_write_allow_mask,
  no_access_deny_mask,
}
use procwarden.Windows.Acl.Entries.{
  last_entry, Outcome, add_access_ace-Outcome, free_unless_null-last_entry,
}

abbrev pub entry : ℕ → AccessMode → ℕ → Entry
entry sid mode access_mask = record {
  sid = sid;
  mode = mode;
  access_mask = access_mask;
  is_inherited = true;
}

-- The last entry of `p` after an entry has been set on each of some paths.
abbrev pub laid : Text → Entry → List Text → Option Entry → Option Entry
laid p e paths older = if some_of (text_eq p) paths then some e else older

module _ (s : System) (p : Text) where
  null_device_read_keeps :
      (sid device : ℕ) (a : Answer) (log : Log)
      → last_entry p (null_device_read s sid device a log).1 ≡ last_entry p log
  unfolding ◌>>=◌ pure call tell
  null_device_read_keeps sid device (fails code) log = refl
  null_device_read_keeps sid device (gives descriptor dacl) log =
      let e : Entry = record (entry sid set_access read_write_allow_mask) {
        is_inherited = false;
      } in
      free_unless_null-last_entry s p descriptor _
      ∙ entries_keeps (s.answer log (set_entries_in_acl e dacl))
          ((set_entries_in_acl e dacl, s.answer log (set_entries_in_acl e dacl)) ∷ log)
    where
      entries_keeps :
          (a : Answer) (log : Log)
          → last_entry p (null_device_entries s device a log).1 ≡ last_entry p log
      entries_keeps (fails code) log = refl
      entries_keeps (gives new_dacl x) log = free_unless_null-last_entry s p new_dacl _

  null_device_opened_keeps :
      (sid : ℕ) (a : Answer) (log : Log)
      → last_entry p (null_device_opened s sid a log).1 ≡ last_entry p log
  unfolding ◌>>=◌ pure call tell
  null_device_opened_keeps sid (fails code) log = refl
  null_device_opened_keeps sid (gives zero x) log = refl
  null_device_opened_keeps sid (gives (suc n) x) log =
      null_device_read_keeps sid (suc n) (s.answer log (get_security_info (suc n)))
        ((get_security_info (suc n), s.answer log (get_security_info (suc n))) ∷ log)

  pub allow_null_device-last_entry :
      (sid : ℕ) (log : Log) → last_entry p (allow_null_device s sid log).1 ≡ last_entry p log
  unfolding allow_null_device ◌>>=◌ call
  allow_null_device-last_entry sid log =
      null_device_opened_keeps sid
        (s.answer log (open_device (lit "\\\\.\\NUL") (0x20000 + 0x40000)))
        ((
          open_device (lit "\\\\.\\NUL") (0x20000 + 0x40000),
          s.answer log (open_device (lit "\\\\.\\NUL") (0x20000 + 0x40000)),
        )
          ∷ log)

  -- A result whose last entry and guard are given.
  abbrev pub Ends : Option Entry → List Text → ℕ → Tracked × Log → Type 0
  Ends last paths sid ((ok _, r), log) =
      (last_entry p log ≡ last) × (r.paths ≡ paths) × (r.sid ≡ sid)
  Ends last paths sid ((err _, _), log) = Unit

  abbrev Laid : Entry → List Text → Option Entry → AclRollback → Tracked × Log → Type 0
  Laid e paths older r = Ends (laid p e paths older) (r.paths ++ paths) r.sid

  abbrev Sets : (ℕ → Entry) → (Text → ℕ → Win (Result SandboxError Bool)) → Type 0
  Sets e add =
      (path : Text) (sid : ℕ) (log : Log)
      → Outcome p path (e sid) (last_entry p log) (add path sid log)

  module _ (e : ℕ → Entry) (add : Text → ℕ → Win (Result SandboxError Bool))
      (sets : Sets e add) where
    Laid-cons :
        (path : Text) (paths : List Text) (older now : Option Entry) (r : AclRollback) (t : Tracked)
        (log : Log)
        → now ≡ (if text_eq p path then some (e r.sid) else older)
        → Laid (e r.sid) paths now (track path r) (t, log)
        → Laid (e r.sid) (path ∷ paths) older r (t, log)
    unfolding track
    Laid-cons path paths older now r (ok _, r') log h (last, tracked, same) =
        (ground arith, tracked ∙ append_assoc r.paths (path ∷ []) paths, same)
    Laid-cons path paths older now r (err _, r') log h l = tt

    after_added-Laid :
        (path : Text) (paths : List Text) (r : AclRollback) (older : Option Entry)
        → ((r : AclRollback) (log : Log)
            → Laid (e r.sid) paths (last_entry p log) r (add_each s add paths r log))
        → (a : Result SandboxError Bool) (log : Log) → Outcome p path (e r.sid) older (a, log)
        → Laid
            (e r.sid)
            (path ∷ paths)
            older
            r
            (after_added s (λ r. add_each s add paths r) path r a log)
    unfolding pure track
    after_added-Laid path paths r older k (ok true) log o =
        Laid-cons path paths older (last_entry p log) r _ _ o (k (track path r) log)
    after_added-Laid path paths r older k (ok false) log o = absurd o
    after_added-Laid path paths r older k (err _) log o = tt

    pub add_each-Laid :
        (paths : List Text) (r : AclRollback) (log : Log)
        → Laid (e r.sid) paths (last_entry p log) r (add_each s add paths r log)
    unfolding add_each pure ◌>>=◌
    add_each-Laid [] r log = (refl, sym (append-nil r.paths), refl)
    add_each-Laid (path ∷ paths) r log =
        after_added-Laid path paths r _ (add_each-Laid paths) _ _ (sets path r.sid log)

  after_each-Ends :
      (rest : AclRollback → Win Tracked) (later : ℕ → Option Entry → Option Entry)
      (more : List Text)
      → ((r : AclRollback) (log : Log)
          → Ends (later r.sid (last_entry p log)) (r.paths ++ more) r.sid (rest r log))
      → (e : Entry) (paths : List Text) (older : Option Entry) (r : AclRollback) (t : Tracked)
        (log : Log)
      → Laid e paths older r (t, log)
      → Ends
          (later r.sid (laid p e paths older))
          (r.paths ++ (paths ++ more))
          r.sid
          (after_each s rest t log)
  unfolding pure
  after_each-Ends rest later more k e paths older r (ok _, r') log (last, tracked, same) =
      subst
        (λ sid.
          Ends (later sid (laid p e paths older)) (r.paths ++ (paths ++ more)) sid (rest r' log))
        same
        (subst (λ l. Ends (later r'.sid l) (r.paths ++ (paths ++ more)) r'.sid (rest r' log)) last
          (subst (λ l. Ends (later r'.sid (last_entry p log)) l r'.sid (rest r' log))
            (rw tracked (append_assoc r.paths paths more)) (k r' log)))
  after_each-Ends rest later more k e paths older r (err _, r') log l = tt

  pub loop-Ends :
      (first : Win Tracked) (rest : AclRollback → Win Tracked)
      (later : ℕ → Option Entry → Option Entry) (more : List Text)
      → ((r : AclRollback) (log : Log)
          → Ends (later r.sid (last_entry p log)) (r.paths ++ more) r.sid (rest r log))
      → (e : Entry) (paths : List Text) (older : Option Entry) (r : AclRollback) (log : Log)
      → Laid e paths older r (first log)
      → Ends
          (later r.sid (laid p e paths older))
          (r.paths ++ (paths ++ more))
          r.sid
          ((first >>= after_each s rest) log)
  unfolding ◌>>=◌
  loop-Ends first rest later more k e paths older r log h =
      after_each-Ends rest later more k e paths older r (first log).0 (first log).1 h

  pub deny_no_access-Sets :
      Sets (λ sid. entry sid deny_access no_access_deny_mask) (add_deny_no_access_ace s)
  unfolding add_deny_no_access_ace add_deny_access_ace
  deny_no_access-Sets path sid log = add_access_ace-Outcome s p _ path sid _ log

  pub deny_write-Sets :
      Sets (λ sid. entry sid deny_access file_generic_write) (add_deny_write_ace s)
  unfolding add_deny_write_ace add_deny_access_ace
  deny_write-Sets path sid log = add_access_ace-Outcome s p _ path sid _ log

  pub read_only-Sets :
      Sets (λ sid. entry sid set_access read_only_allow_mask) (add_allow_read_only_ace s)
  unfolding add_allow_read_only_ace add_allow_access_ace
  read_only-Sets path sid log = add_access_ace-Outcome s p _ path sid _ log

  pub read_write-Sets :
      Sets (λ sid. entry sid set_access read_write_allow_mask) (add_allow_read_write_ace s)
  unfolding add_allow_read_write_ace add_allow_access_ace
  read_write-Sets path sid log = add_access_ace-Outcome s p _ path sid _ log
