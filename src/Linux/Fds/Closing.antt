-- ===== src/Linux/Fds/Closing.antt =====
-- Which descriptors are closed.
use mathlib.Core.List.{append_assoc, append-nil}
use procwarden.Common.{
  false, not, ◌≡◌, refl, sym, ◌∙◌, List, [], ◌∷◌, ◌++◌, map, keep, none, Result, ok, err, IoError,
  arith, ℤ, Bool-cases, if◌then◌else◌, inl, inr,
}
use procwarden.Linux.Kernel.{
  System, Calls, Call, close, read_fd_dir, getrlimit_nofile, Os, libc, std_fs, >>=_ok,
}
use procwarden.Linux.Kernel.Keeps.{
  Keeps, Each, Keeps-pure, Keeps-bind, Keeps-libc, Keeps-std_fs, Grows, Each-append,
}
use procwarden.Linux.Fds.{
  is_stdio, parse_entries, close_fd_ignore_ebadf, close_round, close_fds, attempt, or_else,
  collect_open_fds_from_proc, collect_fd_range_from_rlimit, close_non_stdio_fds_on_current_process,
}

module _ (s : System) where
  calls-close_fd :
      (fd : ℤ) (calls : Calls) → (close_fd_ignore_ebadf s fd calls).1 ≡ calls ++ (close fd ∷ [])
  unfolding close_fd_ignore_ebadf libc
  calls-close_fd fd calls = refl

  close_round_ok :
      (fd : ℤ) (rest : Os (Unit {0})) (closed : Calls → Calls) (calls : Calls)
      → ((before : Calls) → (rest before).0 ≡ ok tt → (rest before).1 ≡ closed before)
      → (close_round s fd rest calls).0 ≡ ok tt
      → (close_round s fd rest calls).1
        ≡ (if is_stdio fd then closed calls else closed (calls ++ (close fd ∷ [])))
  close_round_ok fd rest closed calls ends h = elim (Bool-cases (is_stdio fd)) [
    | inl stdio ↦ rw stdio (ends calls (rw stdio at h))
    | inr other ↦ rw other (
        let (_, _, e) = >>=_ok (close_fd_ignore_ebadf s fd) (λ _. rest) calls (rw other at h) in
        let k = rw e at (rw other at h) in
        rw (e, ← calls-close_fd fd calls) (ends (close_fd_ignore_ebadf s fd calls).1 k))
  ]

  -- If the loop ends well, exactly the listed descriptors above 2 have been closed, in order.
  pub close_fds_ok :
      (fds : List ℤ) (calls : Calls)
      → (close_fds s fds calls).0 ≡ ok tt
      → (close_fds s fds calls).1 ≡ calls ++ map close (keep (λ fd. not (is_stdio fd)) fds)
  unfolding close_fds
  close_fds_ok [] calls h = sym (append-nil calls)
  close_fds_ok (fd ∷ fds) calls h =
      close_round_ok fd (close_fds s fds)
        (λ before. before ++ map close (keep (λ fd. not (is_stdio fd)) fds)) calls
        (close_fds_ok fds) h
      ∙ ground (
        arith,
        append_assoc calls (close fd ∷ []) (map close (keep (λ fd. not (is_stdio fd)) fds)),
      )

  abbrev pub SparesStdio : Call → Type 0
  SparesStdio (close fd) = is_stdio fd ≡ false
  SparesStdio _ = Unit

  -- The descriptors closed are not the standard ones; the two questions are any calls.
  module _ (P : Calls → Type 0) (closes : (fd : ℤ) → is_stdio fd ≡ false → Grows P (close fd))
      (asks_dir : Grows P read_fd_dir) (asks_limit : Grows P getrlimit_nofile) where
    close_fd-Keeps : (fd : ℤ) → is_stdio fd ≡ false → Keeps P (close_fd_ignore_ebadf s fd)
    unfolding close_fd_ignore_ebadf
    close_fd-Keeps fd h = record { at = (Keeps-libc s P (close fd) (closes fd h)).at }

    close_fds-Keeps : (fds : List ℤ) → Keeps P (close_fds s fds)
    unfolding close_fds
    close_fds-Keeps [] = Keeps-pure tt
    close_fds-Keeps (fd ∷ fds) = elim (Bool-cases (is_stdio fd)) [
      | inl stdio ↦ rw stdio (close_fds-Keeps fds)
      | inr other ↦ rw other (
          Keeps-bind (close_fd_ignore_ebadf s fd) (λ _. close_fds s fds) (close_fd-Keeps fd other)
            (λ _. close_fds-Keeps fds))
    ]

    proc-Keeps : Keeps P (collect_open_fds_from_proc s)
    unfolding collect_open_fds_from_proc
    proc-Keeps =
        Keeps-bind (std_fs s read_fd_dir) _ (Keeps-std_fs s P read_fd_dir asks_dir)
          λ _. record { at = λ calls h. h }

    rlimit-Keeps : Keeps P (collect_fd_range_from_rlimit s)
    unfolding collect_fd_range_from_rlimit
    rlimit-Keeps =
        Keeps-bind (libc s getrlimit_nofile) _ (Keeps-libc s P getrlimit_nofile asks_limit)
          λ _. record { at = λ calls h. h }

    or_else-Keeps : (m k : Os (List ℤ)) → Keeps P m → Keeps P k → Keeps P (or_else s m k)
    or_else-Keeps m k hm hk = record {
      at = λ calls h. fallback (m calls).0 (m calls).1 (hm.at calls h);
    }
      where
        fallback :
            (r : Result IoError (List ℤ)) (calls : Calls) → P calls → P (attempt s r k calls).1
        fallback (ok fds) calls h = h
        fallback (err e) calls h = hk.at calls h

    pub close_non_stdio_fds-Keeps : Keeps P (close_non_stdio_fds_on_current_process s)
    unfolding close_non_stdio_fds_on_current_process
    close_non_stdio_fds-Keeps =
        Keeps-bind (or_else s (collect_open_fds_from_proc s) (collect_fd_range_from_rlimit s))
          (close_fds s)
          (or_else-Keeps (collect_open_fds_from_proc s) (collect_fd_range_from_rlimit s) proc-Keeps
            rlimit-Keeps)
          close_fds-Keeps

  -- Whatever the system answers, the child closes none of its three standard descriptors.
  pub close_non_stdio_fds-SparesStdio :
      (calls : Calls)
      → Each SparesStdio calls
      → Each SparesStdio (close_non_stdio_fds_on_current_process s calls).1
  close_non_stdio_fds-SparesStdio =
      (close_non_stdio_fds-Keeps (Each SparesStdio) (λ fd h. Each-append SparesStdio (close fd) h)
        (Each-append SparesStdio read_fd_dir tt) (Each-append SparesStdio getrlimit_nofile tt)).at

  -- If the directory of open descriptors can be read and the closing ends well, exactly the listed
  -- descriptors above 2 have been closed, in order.
  pub close_non_stdio_fds_ok :
      (calls : Calls) (fds : List ℤ)
      → s.error_of calls read_fd_dir ≡ none
      → parse_entries (s.fd_entries (calls ++ (read_fd_dir ∷ []))) ≡ ok fds
      → (close_non_stdio_fds_on_current_process s calls).0 ≡ ok tt
      → (close_non_stdio_fds_on_current_process s calls).1
        ≡ (calls ++ (read_fd_dir ∷ [])) ++ map close (keep (λ fd. not (is_stdio fd)) fds)
  unfolding close_non_stdio_fds_on_current_process collect_open_fds_from_proc std_fs
  close_non_stdio_fds_ok calls fds readable listed h =
      rw (readable, listed)
        (close_fds_ok fds (calls ++ (read_fd_dir ∷ [])) (rw (readable, listed) at h))
