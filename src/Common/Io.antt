-- ===== src/Common/Io.antt =====
-- `Result` and `std::io::Error`. An error is a system error code or a kind with a message, as in
-- the standard library's own representation.
use Prim.Native.Nat.{ℕ}
use mathlib.Core.Bool.{Bool, true, false, ◌||◌}
use mathlib.Core.List.{List, [], ◌∷◌}
use mathlib.Core.Option.{Option, none, some}
use procwarden.Common.Tests.{if◌then◌else◌, ◌==◌}
use procwarden.Common.Strings.{Text}

pub data Result {ℓ κ} (E : Type ℓ) (A : Type κ) : Type (ℓ ⊔ κ) where
  ok : A → Result E A
  err : E → Result E A

infixl 5 ◌>>=◌ ◌>>◌
abbrev pub ◌>>=◌ {ℓ κ μ} :
    {E : Type ℓ} {A : Type κ} {B : Type μ} → Result E A → (A → Result E B) → Result E B
ok a >>= f = f a
err e >>= f = err e

abbrev pub ◌>>◌ {ℓ μ} : {E : Type ℓ} {B : Type μ} → Result E (Unit {0}) → Result E B → Result E B
m >> k = m >>= λ _. k

abbrev pub map_err {ℓ κ μ} :
    {E : Type ℓ} {F : Type κ} {A : Type μ} → (E → F) → Result E A → Result F A
map_err f (ok a) = ok a
map_err f (err e) = err (f e)

-- `is_ok` and `unwrap_or`.
abbrev pub is_ok {ℓ κ} : {E : Type ℓ} {A : Type κ} → Result E A → Bool
is_ok (ok a) = true
is_ok (err e) = false

abbrev pub unwrap_or {ℓ κ} : {E : Type ℓ} {A : Type κ} → Result E A → A → A
unwrap_or (ok a) d = a
unwrap_or (err e) d = d

module _ {ℓ κ μ} {E : Type ℓ} {A : Type κ} {B : Type μ} where
  -- `iter.map(f).collect::<Result<Vec<_>, _>>()`: the first error ends it.
  unfoldable pub traverse : (A → Result E B) → List A → Result E (List B)
  traverse f [] = ok []
  traverse f (a ∷ more) =
      let rest = traverse f more in f a >>= λ b. elim rest [ ok bs ↦ ok (b ∷ bs) | err e ↦ err e ]

pub data ErrorKind : Type 0 where
  other not_found permission_denied invalid_input unsupported uncategorized : ErrorKind

pub data IoError : Type 0 where
  os : ℕ → IoError
  custom : ErrorKind → Text → IoError

abbrev pub eperm : ℕ
eperm = 1

abbrev pub enoent : ℕ
enoent = 2

abbrev pub ebadf : ℕ
ebadf = 9

abbrev pub eacces : ℕ
eacces = 13

abbrev pub einval : ℕ
einval = 22

abbrev pub enosys : ℕ
enosys = 38

abbrev pub eopnotsupp : ℕ
eopnotsupp = 95

-- The kinds that the program asks for; the standard library's others are `uncategorized` here.
unfoldable pub decode_error_kind : ℕ → ErrorKind
decode_error_kind code =
    if code == eperm || code == eacces
    then permission_denied
    else if code == enoent
    then not_found
    else if code == einval
    then invalid_input
    else if code == enosys || code == eopnotsupp
    then unsupported
    else uncategorized

unfoldable pub kind : IoError → ErrorKind
unfolding decode_error_kind
kind (os code) = decode_error_kind code
kind (custom k message) = k

abbrev pub raw_os_error : IoError → Option ℕ
raw_os_error (os code) = some code
raw_os_error (custom k message) = none
