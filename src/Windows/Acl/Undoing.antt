-- ===== src/Windows/Acl/Undoing.antt =====
-- platform/windows/acl.rs: what the guard of the entries covers, through additions and revocations.
use procwarden.Common.{
  ℕ, ◌≡◌, refl, Bool, true, false, Option, some, List, [], ◌∷◌, Text, text_eq, text_eq_iff,
  if◌then◌else◌, some_of, some_of-append, Result, ok, err, arith, Bool-cases, inl, inr, sym, ◌∙◌,
  ◌⊎◌, subst,
}
use procwarden.Output.{SandboxError}
use procwarden.Windows.Kernel.{
  System, Answer, fails, gives, Log, Win, pure, ◌>>=◌, call, tell, revoke_access, Entry,
  get_named_security_info, set_entries_in_acl, set_named_security_info,
}
use procwarden.Windows.Acl.{
  revoke_entries, revoke_all, after_each, revoke_read, revoke_ace, AclRollback, track, Tracked,
  add_each, after_added,
}
use procwarden.Windows.Acl.Entries.{
  entry_of, last_entry, Outcome, made_same, free_unless_null-last_entry,
}

-- Taking an entry back is not refused: a list that was written can be read again, and an entry that
-- revokes can be merged and stored.
pub record CanRevoke (s : System) : Type 0 where
  pub read_again :
      (log : Log) (path : Text) (e : Entry)
      → last_entry path log ≡ some e
      → (x : ℕ) × (y : ℕ) × (s.answer log (get_named_security_info path) ≡ gives x y)
  pub merge :
      (log : Log) (e : Entry) (dacl : ℕ)
      → e.mode ≡ revoke_access
      → (x : ℕ) × (y : ℕ) × (s.answer log (set_entries_in_acl e dacl) ≡ gives x y)
  pub store :
      (log : Log) (path : Text) (e : Entry) (dacl : ℕ)
      → entry_of dacl log ≡ some e
      → e.mode ≡ revoke_access
      → (x : ℕ) × (y : ℕ) × (s.answer log (set_named_security_info path dacl) ≡ gives x y)

abbrev pub RestoredTo : ℕ → Option Entry → Option Entry → Type 0
RestoredTo sid older now =
    (now ≡ older) ⊎ ((e : Entry) × (now ≡ some e) × (e.mode ≡ revoke_access) × (e.sid ≡ sid))

-- The list of the path `p` is as it was at `base`, or its last entry revokes those of
-- the SID.
abbrev pub Restored : ℕ → Log → Text → Log → Type 0
Restored sid base p log = RestoredTo sid (last_entry p base) (last_entry p log)

-- The paths that are still to be restored have been written; the others are restored.
pub record Undoing (sid : ℕ) (base : Log) (paths : List Text) (log : Log) : Type 0 where
  pub written :
      (p : Text) → some_of (text_eq p) paths ≡ true → (e : Entry) × (last_entry p log ≡ some e)
  pub restored : (p : Text) → some_of (text_eq p) paths ≡ false → Restored sid base p log

module _ (s : System) (p : Text) where
  store_revoked :
      (path : Text) (e : Entry) (new_dacl : ℕ) (a : Answer) (log : Log)
      → entry_of new_dacl log ≡ some e
      → ((x : ℕ) × (y : ℕ) × (a ≡ gives x y))
      → last_entry p ((set_named_security_info path new_dacl, a) ∷ log)
        ≡ (if text_eq p path then some e else last_entry p log)
  store_revoked path e new_dacl (fails code) log h given = absurd (cc (given.2))
  store_revoked path e new_dacl (gives x y) log h given = rw h refl

  module _ (can : CanRevoke s) where
    merge_revoked :
        (path : Text) (e : Entry) (dacl : ℕ) (a : Answer) (log : Log)
        → e.mode ≡ revoke_access
        → ((x : ℕ) × (y : ℕ) × (a ≡ gives x y))
        → last_entry p (revoke_entries s path a ((set_entries_in_acl e dacl, a) ∷ log)).1
          ≡ (if text_eq p path then some e else last_entry p log)
    unfolding tell call ◌>>=◌ pure
    merge_revoked path e dacl (fails code) log h given = absurd (cc (given.2))
    merge_revoked path e dacl (gives new_dacl x) log h given =
        let log' : Log = (set_entries_in_acl e dacl, gives new_dacl x) ∷ log in
        let merged = made_same new_dacl e (entry_of new_dacl log) in
        free_unless_null-last_entry s p new_dacl _
        ∙ store_revoked path e new_dacl _ log' merged (can.store log' path e new_dacl merged h)

    read_revoked :
        (path : Text) (sid : ℕ) (a : Answer) (log : Log)
        → ((x : ℕ) × (y : ℕ) × (a ≡ gives x y))
        → (e : Entry) × (e.mode ≡ revoke_access)
          × (e.sid ≡ sid)
          × (last_entry p (revoke_read s path sid a log).1
              ≡ (if text_eq p path then some e else last_entry p log))
    unfolding call ◌>>=◌ pure
    read_revoked path sid (fails code) log given = absurd (cc (given.2))
    read_revoked path sid (gives descriptor dacl) log given =
        let e : Entry = record {
          sid = sid;
          mode = revoke_access;
          access_mask = 0;
          is_inherited = true;
        } in
        (
          e,
          refl,
          refl,
          free_unless_null-last_entry s p descriptor _
              ∙ merge_revoked path e dacl _ log refl (can.merge log e dacl refl),
        )

    revoke_ace_lem :
        (path : Text) (sid : ℕ) (log : Log) (old : Entry)
        → last_entry path log ≡ some old
        → (e : Entry) × (e.mode ≡ revoke_access)
          × (e.sid ≡ sid)
          × (last_entry p (revoke_ace s path sid log).1
              ≡ (if text_eq p path then some e else last_entry p log))
    unfolding revoke_ace call ◌>>=◌
    revoke_ace_lem path sid log old h = read_revoked path sid _ _ (can.read_again log path old h)

text_eq_refl : (p : Text) → text_eq p p ≡ true
text_eq_refl p = (text_eq_iff p p).1 refl

-- The guard of a plan for the SID covers what has been written.
abbrev pub Held : ℕ → Log → AclRollback → Log → Type 0
Held sid base r log = (r.sid ≡ sid) × Undoing sid base r.paths log

module _ (s : System) (sid : ℕ) (base : Log) where
  module _ (can : CanRevoke s) where
    revoke_ace-Undoing :
        (path : Text) (paths : List Text) (log : Log)
        → Undoing sid base (path ∷ paths) log
        → Undoing sid base paths (revoke_ace s path sid log).1
    revoke_ace-Undoing path paths log h =
        let (old, held) = h.written path (ground (arith, text_eq_refl path)) in
        record {
          written = λ p among.
              let (e, _, _, now) = revoke_ace_lem s p can path sid log old held in
              elim (Bool-cases (text_eq p path)) [
                | inl same ↦ (e, now ∙ rw same refl)
                | inr other ↦
                    let (e', before) = h.written p (rw other among) in (e', now ∙ rw other before)
              ];
          restored = λ p outside.
              let (e, revokes, owner, now) = revoke_ace_lem s p can path sid log old held in
              elim (Bool-cases (text_eq p path)) [
                | inl same ↦ inr (e, now ∙ rw same refl, revokes, owner)
                | inr other ↦
                    subst (RestoredTo sid (last_entry p base)) (sym (now ∙ rw other refl))
                      (h.restored p (rw other outside))
              ];
        }

    pub revoke_all-Undoing :
        (paths : List Text) (log : Log)
        → Undoing sid base paths log
        → Undoing sid base [] (revoke_all s sid paths log).1
    unfolding revoke_all pure ◌>>=◌
    revoke_all-Undoing [] log h = h
    revoke_all-Undoing (path ∷ paths) log h =
        revoke_all-Undoing paths _ (revoke_ace-Undoing path paths log h)

  untouched-Undoing :
      (paths : List Text) (log log' : Log)
      → ((p : Text) → last_entry p log' ≡ last_entry p log)
      → Undoing sid base paths log
      → Undoing sid base paths log'
  untouched-Undoing paths log log' same h = record {
    written = λ p among. let (e, before) = h.written p among in (e, same p ∙ before);
    restored = λ p outside.
        subst (RestoredTo sid (last_entry p base)) (sym (same p)) (h.restored p outside);
  }

  added-Undoing :
      (path : Text) (e : Entry) (r : AclRollback) (log log' : Log)
      → ((p : Text) → last_entry p log' ≡ (if text_eq p path then some e else last_entry p log))
      → Undoing sid base r.paths log
      → Undoing sid base (track path r).paths log'
  unfolding track
  added-Undoing path e r log log' now h = record {
    written = λ p among. elim (Bool-cases (text_eq p path)) [
      | inl same ↦ (e, now p ∙ rw same refl)
      | inr other ↦
          let (e', before) =
            h.written p (ground (arith, some_of-append (text_eq p) r.paths (path ∷ []))) in
          (e', now p ∙ rw other before)
    ];
    restored = λ p outside.
        let apart : (text_eq p path ≡ false) × (some_of (text_eq p) r.paths ≡ false) =
          ground (arith, some_of-append (text_eq p) r.paths (path ∷ [])) in
        subst (RestoredTo sid (last_entry p base)) (sym (now p ∙ rw (apart.0) refl))
          (h.restored p apart.1);
  }

  -- The guard of a result covers what has been written.
  abbrev pub Guarded : Tracked × Log → Type 0
  Guarded t = Held sid base t.0.1 t.1

  -- A function that adds an entry to the list of one path.
  abbrev pub Adds : (Text → ℕ → Win (Result SandboxError Bool)) → Type 0
  Adds add =
      (path : Text) (sid : ℕ)
      → (e : Entry) × ((log : Log) (p : Text)
          → Outcome p path e (last_entry p log) (add path sid log))

  after_added-Guarded :
      (rest : AclRollback → Win Tracked) (path : Text) (r : AclRollback) (log : Log)
      → (e : Entry) → ((r : AclRollback) (log : Log) → Held sid base r log → Guarded (rest r log))
      → Held sid base r log
      → (a : Result SandboxError Bool) (log' : Log)
      → ((p : Text) → Outcome p path e (last_entry p log) (a, log'))
      → Guarded (after_added s rest path r a log')
  unfolding pure track
  after_added-Guarded rest path r log e k h (ok true) log' o =
      k (track path r) log' (h.0, added-Undoing path e r log log' o h.1)
  after_added-Guarded rest path r log e k h (ok false) log' o = absurd (o path)
  after_added-Guarded rest path r log e k h (err _) log' o =
      (h.0, untouched-Undoing r.paths log log' o h.1)

  pub add_each-Guarded :
      (add : Text → ℕ → Win (Result SandboxError Bool)) (paths : List Text)
      → Adds add
      → (r : AclRollback) (log : Log) → Held sid base r log
      → Guarded (add_each s add paths r log)
  unfolding add_each pure ◌>>=◌
  add_each-Guarded add [] adds r log h = h
  add_each-Guarded add (path ∷ paths) adds r log h =
      let (e, o) = adds path r.sid in
      after_added-Guarded (λ r. add_each s add paths r) path r log e
        (add_each-Guarded add paths adds) h (add path r.sid log).0 (add path r.sid log).1 (o log)

  after_each-Guarded :
      (rest : AclRollback → Win Tracked)
      → ((r : AclRollback) (log : Log) → Held sid base r log → Guarded (rest r log))
      → (t : Tracked) (log : Log) → Held sid base t.1 log
      → Guarded (after_each s rest t log)
  unfolding pure
  after_each-Guarded rest k (ok _, r) log h = k r log h
  after_each-Guarded rest k (err _, r) log h = h

  -- A loop, and what follows it.
  pub loop-Guarded :
      (first : Win Tracked) (rest : AclRollback → Win Tracked) (log : Log)
      → Guarded (first log)
      → ((r : AclRollback) (log : Log) → Held sid base r log → Guarded (rest r log))
      → Guarded ((first >>= after_each s rest) log)
  unfolding ◌>>=◌
  loop-Guarded first rest log h k = after_each-Guarded rest k (first log).0 (first log).1 h
