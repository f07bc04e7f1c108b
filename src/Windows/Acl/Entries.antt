-- ===== src/Windows/Acl/Entries.antt =====
-- platform/windows/acl.rs: the entry that a path's access list got last, read from the calls made.
use procwarden.Common.{
  ℕ, zero, suc, ◌≡◌, refl, Bool, true, false, Option, none, some, [], ◌∷◌, Text, text_eq, ◌==◌,
  if◌then◌else◌, Result, ok, err, arith, ◌∙◌, ap,
}
use procwarden.Output.{SandboxError}
use procwarden.Windows.Kernel.{
  System, Answer, fails, gives, Log, pure, ◌>>=◌, call, tell, AccessMode, Entry,
  get_named_security_info, set_entries_in_acl, set_named_security_info,
}
use procwarden.Windows.Kernel.{free_unless_null}
use procwarden.Windows.Acl.{after_store, after_entries, after_read, add_access_ace}

abbrev made : ℕ → ℕ → Entry → Option Entry → Option Entry
made dacl new_dacl entry older = if dacl == new_dacl then some entry else older

abbrev merged : ℕ → Entry → Answer → Option Entry → Option Entry
merged dacl entry (fails _) older = older
merged dacl entry (gives new_dacl _) older = made dacl new_dacl entry older

-- The entry that was merged into the list `dacl`.
abbrev pub entry_of : ℕ → Log → Option Entry
entry_of dacl [] = none
entry_of dacl ((set_entries_in_acl entry _, a) ∷ log) = merged dacl entry a (entry_of dacl log)
entry_of dacl (_ ∷ log) = entry_of dacl log

abbrev replaced : Text → Text → Option Entry → Option Entry → Option Entry
replaced p path none older = older
replaced p path (some entry) older = if text_eq p path then some entry else older

abbrev stored : Text → Text → Option Entry → Answer → Option Entry → Option Entry
stored p path entry (fails _) older = older
stored p path entry (gives _ _) older = replaced p path entry older

-- The entry that the list of the path `p` got last.
abbrev pub last_entry : Text → Log → Option Entry
last_entry p [] = none
last_entry p ((set_named_security_info path dacl, a) ∷ log) =
    stored p path (entry_of dacl log) a (last_entry p log)
last_entry p (_ ∷ log) = last_entry p log

-- What an addition to the list of `path` makes of the last entry of `p`, which was `older`.
abbrev pub Outcome : Text → Text → Entry → Option Entry → Result SandboxError Bool × Log → Type 0
Outcome p path entry older (ok true, log) =
    last_entry p log ≡ (if text_eq p path then some entry else older)
Outcome p path entry older (ok false, log) = ⊥
Outcome p path entry older (err _, log) = last_entry p log ≡ older

pub made_same : (n : ℕ) (entry : Entry) (older : Option Entry) → made n n entry older ≡ some entry
made_same n entry older = ground arith

module _ (s : System) (p : Text) where
  pub free_unless_null-last_entry :
      (x : ℕ) (log : Log) → last_entry p (free_unless_null s x log).1 ≡ last_entry p log
  unfolding free_unless_null pure tell call ◌>>=◌
  free_unless_null-last_entry zero log = refl
  free_unless_null-last_entry (suc x) log = refl

  store-Outcome :
      (path : Text) (entry : Entry) (older : Option Entry) (descriptor : ℕ) (a : Answer) (log : Log)
      → last_entry p log ≡ stored p path (some entry) a older
      → Outcome p path entry older (after_store s path descriptor a log)
  unfolding pure ◌>>=◌
  store-Outcome path entry older descriptor (fails code) log h =
      free_unless_null-last_entry descriptor log ∙ h
  store-Outcome path entry older descriptor (gives _ _) log h =
      free_unless_null-last_entry descriptor log ∙ h

  entries-Outcome :
      (path : Text) (entry : Entry) (dacl descriptor : ℕ) (a : Answer) (log : Log)
      → Outcome p path entry
          (last_entry p log)
          (after_entries s path descriptor a ((set_entries_in_acl entry dacl, a) ∷ log))
  unfolding pure ◌>>=◌ call
  entries-Outcome path entry dacl descriptor (fails code) log =
      free_unless_null-last_entry descriptor _
  entries-Outcome path entry dacl descriptor (gives new_dacl x) log =
      store-Outcome path entry (last_entry p log) descriptor _ _ (
        free_unless_null-last_entry new_dacl _
        ∙ ap
            (λ o.
              stored p path o
                (s.answer ((set_entries_in_acl entry dacl, gives new_dacl x) ∷ log)
                  (set_named_security_info path new_dacl))
                (last_entry p log))
            (made_same new_dacl entry (entry_of new_dacl log)))

  read-Outcome :
      (path : Text) (entry : Entry) (a : Answer) (log : Log)
      → Outcome p path entry (last_entry p log) (after_read s path entry a log)
  unfolding pure ◌>>=◌ call
  read-Outcome path entry (fails code) log = refl
  read-Outcome path entry (gives descriptor dacl) log =
      entries-Outcome path entry dacl descriptor _ log

  pub add_access_ace-Outcome :
      (mode : AccessMode) (path : Text) (sid access_mask : ℕ) (log : Log)
      → Outcome p path
          (record { sid = sid; mode = mode; access_mask = access_mask; is_inherited = true })
          (last_entry p log)
          (add_access_ace s mode path sid access_mask log)
  unfolding add_access_ace ◌>>=◌ call
  add_access_ace-Outcome mode path sid access_mask log =
      read-Outcome path _ (s.answer log (get_named_security_info path))
        ((get_named_security_info path, s.answer log (get_named_security_info path)) ∷ log)
