-- ===== src/Linux/Execution/Sandboxed.antt =====
-- What the child has done to itself before it closes its descriptors and executes its program.
use mathlib.Core.List.{append_assoc, append-nil}
use procwarden.Common.{
  When, When-map, ℕ, Bool, true, false, not, ◌≡◌, ◌≢◌, refl, sym, ◌∙◌, ap, subst, List, [], ◌∷◌,
  ◌++◌, All, is_empty, Result, ok, IoError, arith,
}
use procwarden.Paths.{PathBuf}
use procwarden.Policy.{
  SandboxPolicy, readable_paths, writable_paths, default_read_access, default_write_access,
}
use procwarden.Linux.Kernel.{System, Calls, Call, TargetArch, seccomp_apply, Os, pure, >>=_ok}
use procwarden.Linux.Kernel.Keeps.{Keeps, Grows, Keeps-pure, Keeps-if, Keeps-bind, Keeps-ignore}
use procwarden.Linux.Kernel.Makes.{AllAccepted}
use procwarden.Linux.Overlay.{ReadWriteOverlayEntry}
use procwarden.Linux.Namespace.{enter_overlay_mount_namespace}
use procwarden.Linux.Mounts.{
  create_overlay_scratch_root, apply_overlays, install_readwrite_mount_overlays_on_current_process,
}
use procwarden.Linux.Mounts.Installed.{IsMounted, IsMounted-append, apply_overlays_ok}
use procwarden.Linux.Monotone.{std_fs-Keeps}
use procwarden.Linux.Landlock.{
  crate_call, when, add_read_rules, set_no_new_privs, check_enforced,
  install_filesystem_landlock_rules_on_current_thread,
}
use procwarden.Linux.Landlock.Granted.{landlock_calls, landlock-Makes, landlock-IsEnforced}
use procwarden.Linux.Seccomp.{
  network_filter, target_arch, BuildArch, x86_64, aarch64, other_arch, Seccompiler,
  install_network_seccomp_filter_on_current_thread,
}
use procwarden.Linux.Seccomp.Table.{seccomp_ok}
use procwarden.Linux.Execution.{Launch, restrict}

-- The calls have been made, one directly after the other, and none has been refused.
pub record Contains (s : System) (made calls : List Call) : Type 0 where
  pub before : List Call
  pub after : List Call
  pub split : calls ≡ before ++ (made ++ after)
  pub accepted : AllAccepted s before made

split-append :
    (made before after calls : List Call) (d : Call)
    → calls ≡ before ++ (made ++ after)
    → calls ++ (d ∷ []) ≡ before ++ (made ++ (after ++ (d ∷ [])))
split-append made before after calls d split =
    ap (λ l. l ++ (d ∷ [])) split
    ∙ (append_assoc before (made ++ after) (d ∷ [])
        ∙ ap (λ l. before ++ l) (append_assoc made after (d ∷ [])))

Contains-append : (s : System) (made : List Call) (d : Call) → Grows (Contains s made) d
Contains-append s made d calls m = record {
  before = m.before;
  after = m.after ++ (d ∷ []);
  split = split-append made m.before m.after calls d m.split;
  accepted = m.accepted;
}

-- Landlock has been installed by these calls, one directly after the other; none has been refused,
-- and directly afterwards the ruleset was enforced, in part at least.
pub record IsRestricted (s : System) (made calls : List Call) : Type 0 where
  pub before : List Call
  pub after : List Call
  pub split : calls ≡ before ++ (made ++ after)
  pub accepted : AllAccepted s before made
  pub enforced : s.fully_unenforced (before ++ made) ≡ false

IsRestricted-append : (s : System) (made : List Call) (d : Call) → Grows (IsRestricted s made) d
IsRestricted-append s made d calls m = record {
  before = m.before;
  after = m.after ++ (d ∷ []);
  split = split-append made m.before m.after calls d m.split;
  accepted = m.accepted;
  enforced = m.enforced;
}

-- The filter of the architecture built for has been applied, and the system has accepted it.
abbrev pub IsFiltered : Launch → Calls → Type 0
IsFiltered launch calls =
    (arch : TargetArch) × (target_arch launch.build ≡ ok arch)
    × Contains launch.system (seccomp_apply (network_filter arch) ∷ []) calls

-- The child has the sandbox of the policy: each overlay is mounted; without a default right to
-- write, Landlock restricts it to the grants of the policy; without network access, the filter is
-- applied.
pub record IsSandboxed (launch : Launch) (policy : SandboxPolicy)
    (entries : List ReadWriteOverlayEntry) (calls : Calls) : Type 0 where
  pub mounted : All (λ e. IsMounted launch.system e calls) entries
  pub restricted : When (not (default_write_access policy)) (
      IsRestricted launch.system
        (landlock_calls
          (default_read_access policy)
          (readable_paths policy)
          (writable_paths policy))
        calls)
  pub filtered : When (not policy.network_access) (IsFiltered launch calls)

entries_append :
    (s : System) (es : List ReadWriteOverlayEntry) (d : Call)
    → Grows (λ calls. All (λ e. IsMounted s e calls) es) d
entries_append s [] d calls h = tt
entries_append s (e ∷ es) d calls h =
    (IsMounted-append s e d calls h.0, entries_append s es d calls h.1)

install_overlays_ok :
    (s : System) (es : List ReadWriteOverlayEntry) (uid gid : ℕ) (calls : Calls)
    → (install_readwrite_mount_overlays_on_current_process s es uid gid calls).0 ≡ ok tt
    → All
        (λ e.
          IsMounted s e (install_readwrite_mount_overlays_on_current_process s es uid gid calls).1)
        es
unfolding install_readwrite_mount_overlays_on_current_process
install_overlays_ok s [] uid gid calls h = tt
install_overlays_ok s (e ∷ es) uid gid calls h =
    let (_, _, f) = >>=_ok (enter_overlay_mount_namespace s uid gid) _ calls h in
    let entered = (enter_overlay_mount_namespace s uid gid calls).1 in
    let (root, _, g) = >>=_ok (create_overlay_scratch_root s) _ entered (rw f at h) in
    let ready = (create_overlay_scratch_root s entered).1 in
    let (_, b, k) = >>=_ok (apply_overlays s root 0 (e ∷ es)) _ ready (rw (f, g) at h) in
    subst (λ r. All (λ o. IsMounted s o r.1) (e ∷ es)) (sym (f ∙ (g ∙ k)))
      ((Keeps-ignore _ (std_fs-Keeps s _ (entries_append s (e ∷ es)) _)).at _
        (apply_overlays_ok s root 0 (e ∷ es) ready b))

module _ (s : System) (P : Calls → Type 0) (grows : (d : Call) → Grows P d) where
  crate_call-Keeps : (c : Call) → Keeps P (crate_call s c)
  unfolding crate_call
  crate_call-Keeps c = record { at = grows c }

  answer-Keeps {ℓ} : {A : Type ℓ} (r : Result IoError A) → Keeps P (λ calls. (r, calls))
  answer-Keeps r = record { at = λ calls h. h }

  ruleset install_rules = (Keeps-pure, Keeps-if, Keeps-bind, answer-Keeps, crate_call-Keeps)

  seccomp-Keeps :
      (compiler : Seccompiler) (build : BuildArch)
      → Keeps P (install_network_seccomp_filter_on_current_thread s compiler build)
  unfolding install_network_seccomp_filter_on_current_thread
  seccomp-Keeps compiler build = search install_rules depth 9

  set_no_new_privs-Keeps : Keeps P (set_no_new_privs s)
  unfolding set_no_new_privs
  set_no_new_privs-Keeps = record { at = grows _ }

  add_read_rules-Keeps :
      (b : Bool) (readable : List PathBuf) → Keeps P (add_read_rules s b readable)
  unfolding add_read_rules
  add_read_rules-Keeps b readable = search install_rules

  check_enforced-Keeps : Keeps P (check_enforced s)
  unfolding check_enforced
  check_enforced-Keeps = record { at = λ calls h. ground arith }

  landlock-Keeps :
      (b : Bool) (readable writable : List PathBuf)
      → Keeps P (install_filesystem_landlock_rules_on_current_thread s b readable writable)
  unfolding install_filesystem_landlock_rules_on_current_thread
  landlock-Keeps b readable writable =
      search (install_rules, add_read_rules-Keeps, set_no_new_privs-Keeps, check_enforced-Keeps)
        depth 12

  when-Keeps : (b : Bool) (m : Os (Unit {0})) → Keeps P m → Keeps P (when s b m)
  when-Keeps b m h = Keeps-if b m (pure tt) h (Keeps-pure tt)

landlock-IsRestricted :
    (s : System) (b : Bool) (readable writable : List PathBuf) (calls : Calls)
    → (install_filesystem_landlock_rules_on_current_thread s b readable writable calls).0 ≡ ok tt
    → IsRestricted s
        (landlock_calls b readable writable)
        (install_filesystem_landlock_rules_on_current_thread s b readable writable calls).1
landlock-IsRestricted s b readable writable calls h =
    let (made, accepted) = landlock-Makes s b readable writable calls h in
    record {
      before = calls;
      after = [];
      split = made ∙ ap (λ l. calls ++ l) (sym (append-nil _));
      accepted = accepted;
      enforced =
          subst (λ l. s.fully_unenforced l ≡ false) made
            (landlock-IsEnforced s b readable writable calls h);
    }

other_arch_fails :
    (s : System) (compiler : Seccompiler) (calls : Calls)
    → (install_network_seccomp_filter_on_current_thread s compiler other_arch calls).0 ≢ ok tt
unfolding install_network_seccomp_filter_on_current_thread target_arch
other_arch_fails s compiler calls h = ground arith

filtered_ok :
    (s : System) (compiler : Seccompiler) (build : BuildArch) (calls : Calls)
    → (install_network_seccomp_filter_on_current_thread s compiler build calls).0 ≡ ok tt
    → (arch : TargetArch) × (target_arch build ≡ ok arch)
      × Contains s
          (seccomp_apply (network_filter arch) ∷ [])
          (install_network_seccomp_filter_on_current_thread s compiler build calls).1
unfolding target_arch
filtered_ok s compiler x86_64 calls h = (
  TargetArch.x86_64,
  refl,
  let (made, accepted) = seccomp_ok s compiler x86_64 calls h in
      record { before = calls; after = []; split = made; accepted = accepted },
)
filtered_ok s compiler aarch64 calls h = (
  TargetArch.aarch64,
  refl,
  let (made, accepted) = seccomp_ok s compiler aarch64 calls h in
      record { before = calls; after = []; split = made; accepted = accepted },
)
filtered_ok s compiler other_arch calls h = absurd (other_arch_fails s compiler calls h)

-- A step that the policy asks for has been taken.
when_ok :
    (s : System) (b : Bool) (m : Os (Unit {0})) (Q : Calls → Type 0)
    → ((calls : Calls) → (m calls).0 ≡ ok tt → Q (m calls).1)
    → (calls : Calls) → (when s b m calls).0 ≡ ok tt
    → When b (Q (when s b m calls).1)
when_ok s true m Q done calls h = done calls h
when_ok s false m Q done calls h = tt

when_overlays_ok :
    (s : System) (es : List ReadWriteOverlayEntry) (uid gid : ℕ) (calls : Calls)
    → (when s
        (not (is_empty es))
        (install_readwrite_mount_overlays_on_current_process s es uid gid)
        calls).0
      ≡ ok tt
    → All
        (λ e.
          IsMounted s e
            (when s
              (not (is_empty es))
              (install_readwrite_mount_overlays_on_current_process s es uid gid)
              calls).1)
        es
when_overlays_ok s [] uid gid calls h = tt
when_overlays_ok s (e ∷ es) uid gid calls h = install_overlays_ok s (e ∷ es) uid gid calls h

-- A child that has been restricted without an error has the sandbox of the policy.
pub restrict_ok :
    (launch : Launch) (policy : SandboxPolicy) (entries : List ReadWriteOverlayEntry)
    (calls : Calls)
    → (restrict launch policy entries calls).0 ≡ ok tt
    → IsSandboxed launch policy entries (restrict launch policy entries calls).1
unfolding restrict
restrict_ok launch policy entries calls h =
    let s = launch.system in
    let overlays = when s (not (is_empty entries)) (
      install_readwrite_mount_overlays_on_current_process s entries launch.host_uid
        launch.host_gid) in
    let landlock_rules =
      install_filesystem_landlock_rules_on_current_thread s (default_read_access policy)
        (readable_paths policy) (writable_paths policy) in
    let landlock = when s (not (default_write_access policy)) landlock_rules in
    let filter = install_network_seccomp_filter_on_current_thread s launch.compiler launch.build in
    let seccomp = when s (not policy.network_access) filter in
    let (_, a, f) = >>=_ok overlays _ calls h in
    let c1 = (overlays calls).1 in
    let (_, b, g) = >>=_ok landlock _ c1 (rw f at h) in
    let c2 = (landlock c1).1 in
    let c = rw (f, g) at h in
    subst (λ r. IsSandboxed launch policy entries r.1) (sym (f ∙ g))
      (record {
        mounted = keep_seccomp _ (entries_append s entries) c2 (
            (when-Keeps s _ (entries_append s entries) _ landlock_rules
                (landlock-Keeps s _ (entries_append s entries) _ _ _)).at
              c1 (when_overlays_ok s entries _ _ calls a));
        restricted =
            When-map (not (default_write_access policy))
              (keep_seccomp _ (IsRestricted-append s granted) c2)
              (when_ok s _ landlock_rules (IsRestricted s granted) (landlock-IsRestricted s _ _ _)
                c1 b);
        filtered =
            when_ok s _ filter (IsFiltered launch) (filtered_ok s launch.compiler launch.build) c2
              c;
      })
  where
    granted : List Call
    granted =
        landlock_calls (default_read_access policy) (readable_paths policy) (writable_paths policy)

    keep_seccomp :
        (P : Calls → Type 0) (grows : (d : Call) → Grows P d) (c : Calls)
        → P c
        → P
            (when launch.system
              (not policy.network_access)
              (install_network_seccomp_filter_on_current_thread launch.system launch.compiler
                launch.build)
              c).1
    keep_seccomp P grows c p =
        (when-Keeps launch.system P grows _ _ (seccomp-Keeps launch.system P grows _ _)).at c p
