-- ===== src/Windows/Profile.antt =====
-- platform/windows/token.rs: the AppContainer's profile and its SID; and util.rs, the SID as a text.
pub mod Owned
use procwarden.Common.{
  ℕ, zero, suc, ◌+◌, ◌-◌, ◌/◌, ◌%◌, ◌^◌, Bool, true, false, not, ◌&&◌, Option, none, some, List, [],
  ◌∷◌, ◌++◌, Text, lit, decimal, ltb, leb, if◌then◌else◌, Result, ok, err,
}
use procwarden.Output.{SandboxError, windows}
use procwarden.Windows.Kernel.{
  System, Answer, fails, gives, Win, pure, asks, ◌>>=◌, ◌>>◌, ◌>>?◌, call, tell, Done, signed,
  get_last_error_code, free_unless_null, free_all, local_free, create_profile, derive_sid,
  delete_profile, convert_sid_to_string,
}
use procwarden.Windows.Process.Attributes.{network_capability_entries}

pub record AppContainerContext : Type 0 where
  pub sid : ℕ
  pub profile_name : Text
  pub profile_created : Bool

-- `{:08x}`
abbrev hex_digit : ℕ → ℕ
hex_digit n = if ltb n 10 then n + 48 else n + 87

unfoldable pub hex_digits : ℕ → ℕ → Text → Text
hex_digits zero n acc = acc
hex_digits (suc k) n acc = hex_digits k (n / 16) (hex_digit (n % 16) ∷ acc)

unfoldable pub hex8 : ℕ → Text
hex8 n = hex_digits 8 n []

module _ (s : System) where
  -- `OwnedSid::from_raw`
  unfoldable pub owned_sid : ℕ → Result SandboxError ℕ
  owned_sid zero = err (windows (lit "received null sid pointer"))
  owned_sid (suc p) = ok (suc p)

  -- `Drop` of `OwnedSid`
  unfoldable pub drop_sid : ℕ → Win Done
  drop_sid p = free_unless_null s p

  -- `Drop`, and then of the SID.
  unfoldable pub drop_context : AppContainerContext → Win Done
  drop_context context =
      (if context.profile_created then tell s (delete_profile context.profile_name) else pure tt)
      >> drop_sid context.sid

  -- A function whose capability SIDs are dropped when it returns.
  abbrev pub returning :
      List ℕ
      → Result SandboxError AppContainerContext
      → Win (Result SandboxError AppContainerContext)
  returning sids r = free_all s sids >> pure r

  abbrev pub with_sid :
      Text → Bool → Result SandboxError ℕ → Result SandboxError AppContainerContext
  with_sid name created (err e) = err e
  with_sid name created (ok sid) =
      ok (record { sid = sid; profile_name = name; profile_created = created })

  abbrev pub derived : Text → List ℕ → ℕ → Answer → Win (Result SandboxError AppContainerContext)
  derived name sids create_hr (fails derive_hr) = returning sids (
      err (
        windows (
          lit "CreateAppContainerProfile/DeriveAppContainerSidFromAppContainerName failed: 0x"
          ++ (hex8 create_hr ++ (lit "/0x" ++ hex8 derive_hr)))))
  derived name sids create_hr (gives sid _) = returning sids (with_sid name false (owned_sid sid))

  -- A result that is not negative is a success.
  abbrev pub profiled : Text → List ℕ → Answer → Win (Result SandboxError AppContainerContext)
  profiled name sids (fails create_hr) = call s (derive_sid name) >>= derived name sids create_hr
  profiled name sids (gives sid _) = returning sids (with_sid name true (owned_sid sid))

  -- `network_capabilities` is the same loop as in process.rs.
  unfoldable pub network_capabilities : Bool → Win (Result SandboxError (List ℕ))
  network_capabilities network_access = network_capability_entries s network_access

  unfoldable pub create_appcontainer_context_with_network :
      Bool → Win (Result SandboxError AppContainerContext)
  create_appcontainer_context_with_network network_access =
      asks (λ log. lit "procwarden_" ++ (decimal s.pid ++ (lit "_" ++ decimal (s.random log))))
      >>= λ name. network_capabilities network_access >>? λ sids.
          call s (create_profile name sids) >>= profiled name sids

  -- The characters of the string at the pointer, up to its end.
  abbrev pub to_string : Answer → Win (Result SandboxError Text)
  to_string (fails _) = get_last_error_code s >>= λ code. pure (
      err (
        windows (
          lit "ConvertSidToStringSidW failed: "
          ++ (signed code ++ (lit " (" ++ (s.strerror code ++ lit ")"))))))
  to_string (gives text _) = asks (λ log. s.wide_text log text) >>= λ sid_string.
      tell s (local_free text) >> pure (ok sid_string)

  unfoldable pub sid_to_string : ℕ → Win (Result SandboxError Text)
  sid_to_string zero = pure (err (windows (lit "unable to convert null sid to string")))
  sid_to_string (suc sid) = call s (convert_sid_to_string (suc sid)) >>= to_string
