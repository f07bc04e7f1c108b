-- ===== src/Linux/Fds.antt =====
-- platform/linux.rs: closing the inherited file descriptors other than the three standard ones.
pub mod Closing
use procwarden.Common.{
  ℕ, zero, suc, ◌+◌, ◌-◌, ◌*◌, ◌^◌, Bool, true, false, ◌&&◌, Option, none, some, List, [], ◌∷◌,
  ◌++◌, Text, lit, leb, ltb, ◌==◌, if◌then◌else◌, Result, ok, err, IoError, os, ebadf, raw_os_error,
  ℤ, pos, negsuc,
}
use procwarden.Linux.Kernel.{
  System, Calls, Call, close, getrlimit_nofile, read_fd_dir, Os, pure, fail, ◌>>=◌, ◌>>◌, libc,
  std_fs,
}

abbrev is_digit : ℕ → Bool
is_digit c = leb b'0' c && leb c b'9'

parse_digits : ℕ → Text → Option ℕ
parse_digits acc [] = some acc
parse_digits acc (c ∷ s) =
    let rest = parse_digits (acc * 10 + (c - b'0')) s in if is_digit c then rest else none

-- At least one digit, and a value up to the limit.
parse_magnitude : ℕ → Text → Option ℕ
parse_magnitude limit [] = none
parse_magnitude limit (c ∷ s) = elim (parse_digits 0 (c ∷ s)) [
  | none ↦ none
  | some n ↦ if leb n limit then some n else none
]

abbrev negate : ℕ → ℤ
negate zero = pos 0
negate (suc n) = negsuc n

abbrev signed : (ℕ → ℤ) → Option ℕ → Option ℤ
signed f none = none
signed f (some n) = some (f n)

-- `str::parse::<i32>`. A name that is not UTF-8 has a byte that is no digit.
unfoldable pub parse_i32 : Text → Option ℤ
unfolding parse_magnitude parse_digits
parse_i32 [] = none
parse_i32 (c ∷ s) =
    if c == b'-'
    then signed negate (parse_magnitude (2 ^ 31) s)
    else if c == b'+'
    then signed pos (parse_magnitude (2 ^ 31 - 1) s)
    else signed pos (parse_magnitude (2 ^ 31 - 1) (c ∷ s))

-- The loop over the directory: an entry that cannot be read ends it, a name that is no number is
-- passed over.
unfoldable pub parse_entries : List (Result IoError Text) → Result IoError (List ℤ)
parse_entries [] = ok []
parse_entries (err e ∷ entries) = err e
parse_entries (ok name ∷ entries) = elim (parse_entries entries) [
  | err e ↦ err e
  | ok fds ↦ elim (parse_i32 name) [ none ↦ ok fds | some fd ↦ ok (fd ∷ fds) ]
]

-- `(3..cap)`
range_from : ℕ → ℕ → List ℤ
range_from zero start = []
range_from (suc count) start = pos start ∷ range_from count (start + 1)

abbrev pub rlim_infinity : ℕ
rlim_infinity = 2 ^ 64 - 1

abbrev pub fd_cap : ℕ
fd_cap = 1_048_576

unfoldable pub fd_range : ℕ → List ℤ
unfolding range_from
fd_range limit =
    let cap =
      if limit == rlim_infinity then fd_cap else if leb limit fd_cap then limit else fd_cap in
    range_from (cap - 3) 3

-- `fd <= 2`
unfoldable pub is_stdio : ℤ → Bool
is_stdio (pos n) = leb n 2
is_stdio (negsuc n) = true

module _ (s : System) where
  unfoldable pub collect_open_fds_from_proc : Os (List ℤ)
  collect_open_fds_from_proc =
      std_fs s read_fd_dir >> λ calls. (parse_entries (s.fd_entries calls), calls)

  unfoldable pub collect_fd_range_from_rlimit : Os (List ℤ)
  collect_fd_range_from_rlimit =
      libc s getrlimit_nofile >> λ calls. (ok (fd_range (s.nofile_limit calls)), calls)

  abbrev pub ignore_ebadf : Result IoError (Unit {0}) → Result IoError (Unit {0})
  ignore_ebadf (ok _) = ok tt
  ignore_ebadf (err e) = elim (raw_os_error e) [
    | none ↦ err e
    | some code ↦ if code == ebadf then ok tt else err e
  ]

  unfoldable pub close_fd_ignore_ebadf : ℤ → Os (Unit {0})
  close_fd_ignore_ebadf fd calls =
      let (r, calls') = libc s (close fd) calls in (ignore_ebadf r, calls')

  -- The body of the loop, before the rounds that are left.
  abbrev pub close_round : ℤ → Os (Unit {0}) → Os (Unit {0})
  close_round fd rest = if is_stdio fd then rest else (close_fd_ignore_ebadf fd >> rest)

  unfoldable pub close_fds : List ℤ → Os (Unit {0})
  close_fds [] = pure tt
  close_fds (fd ∷ fds) = close_round fd (close_fds fds)

  abbrev pub attempt {ℓ} : {A : Type ℓ} → Result IoError A → Os A → Calls → Result IoError A × Calls
  attempt (ok a) k calls = (ok a, calls)
  attempt (err e) k calls = k calls

  -- `match m { Ok(a) => a, Err(_) => k? }`
  abbrev pub or_else {ℓ} : {A : Type ℓ} → Os A → Os A → Os A
  or_else m k calls = let (r, calls') = m calls in attempt r k calls'

  unfoldable pub close_non_stdio_fds_on_current_process : Os (Unit {0})
  close_non_stdio_fds_on_current_process =
      or_else collect_open_fds_from_proc collect_fd_range_from_rlimit >>= close_fds
