-- ===== src/Guards/Uploads.antt =====
-- app/decorators/guards.py, UploadFilesGuard: the limits on uploaded files.
use notifyr.Base.{
  ℕ, ◌+◌, ◌≤◌, ◌≡◌, ◌≢◌, ◌↔◌, Bool, true, false, Option, none, some, List, [], ◌∷◌, String,
  contains, str_eq, arith, if◌then◌else◌, ltb, length, ◌⊎◌, inl, inr,
}
use notifyr.Failure.{Failure, Result-cases, ok, raise, unbound_local, error}
use notifyr.Guards.{Answer, pass}

-- An UploadFile, by what the guard reads of it.
pub record File : Type 0 where
  pub filename : String
  pub size : ℕ

-- The guard's settings. The extensions count only by being given: `get_extension(ext)` reads `ext`
-- before its first assignment.
pub record Limits : Type 0 where
  pub max_files : Option ℕ
  pub max_files_size : Option ℕ
  pub max_size : Option ℕ
  pub has_extensions : Bool

-- `limit is not None and n > limit`
abbrev exceeds : ℕ → Option ℕ → Bool
exceeds n none = false
exceeds n (some limit) = ltb limit n

-- The tests of one file, with the names before it and the total size up to it.
unfoldable pub check_file : Limits → File → List String → ℕ → Answer
check_file self f filenames total_size =
    if str_eq f.filename ""
    then raise (error "DuplicateFileNameError")
    else if contains f.filename filenames
    then raise (error "DuplicateFileNameError")
    else if self.has_extensions
    then raise unbound_local
    else if exceeds f.size self.max_files_size
    then raise (error "FileTooLargeError")
    else if exceeds (total_size + f.size) self.max_size
    then raise (error "TotalFilesSizeExceededError")
    else pass

-- The loop over the files.
unfoldable pub check_files : Limits → List File → List String → ℕ → Answer
check_files self [] filenames total_size = pass
check_files self (f ∷ files) filenames total_size = elim (check_file self f filenames total_size) [
  | ok _ ↦ check_files self files (f.filename ∷ filenames) (total_size + f.size)
  | raise e ↦ raise e
]

unfoldable pub upload_files_guard : Limits → List File → Answer
unfolding check_files
upload_files_guard self files =
    if exceeds (length files) self.max_files
    then raise (error "MaxFileLimitError")
    else check_files self files [] 0

-- `n` keeps to the limit.
abbrev pub Within : ℕ → Option ℕ → Type 0
Within n none = Unit
Within n (some limit) = n ≤ limit

exceeds_iff : (n : ℕ) (limit : Option ℕ) → (exceeds n limit ≡ false) ↔ Within n limit
exceeds_iff n limit = ground arith

abbrev pub total : List File → ℕ
total [] = 0
total (f ∷ files) = f.size + total files

-- Each file has a name that is neither before it nor among `taken`, and keeps to the limit on its size.
abbrev pub AreNamed : Limits → List File → List String → Type 0
AreNamed self [] taken = Unit
AreNamed self (f ∷ files) taken =
    (str_eq f.filename "" ≡ false)
    × (contains f.filename taken ≡ false)
    × Within f.size self.max_files_size
    × AreNamed self files (f.filename ∷ taken)

check_file_iff :
    (self : Limits) (f : File) (taken : List String) (sum : ℕ)
    → self.has_extensions ≡ false
    → (check_file self f taken sum ≡ pass) ↔ (
        (str_eq f.filename "" ≡ false)
        × (contains f.filename taken ≡ false)
        × Within f.size self.max_files_size
        × Within (sum + f.size) self.max_size)
unfolding check_file
check_file_iff self f taken sum plain =
    ground (arith, exceeds_iff f.size self.max_files_size, exceeds_iff (sum + f.size) self.max_size)

Within-le : (n m : ℕ) (limit : Option ℕ) → n ≤ m → Within m limit → Within n limit
Within-le n m limit h w = ground arith

check_file-cases :
    (self : Limits) (f : File) (taken : List String) (sum : ℕ)
    → (check_file self f taken sum ≡ pass)
      ⊎ ((e : Failure) × (check_file self f taken sum ≡ raise e))
unfolding check_file
check_file-cases self f taken sum = elim (Result-cases (check_file self f taken sum)) [
  | inl (a, h) ↦ inl (ground (arith, h))
  | inr (e, h) ↦ inr (e, h)
]

check_files_iff :
    (self : Limits) (files : List File) (taken : List String) (sum : ℕ)
    → self.has_extensions ≡ false
    → Within sum self.max_size
    → (check_files self files taken sum ≡ pass)
      ↔ (AreNamed self files taken × Within (sum + total files) self.max_size)
unfolding check_files
check_files_iff self [] taken sum plain w = ground arith
check_files_iff self (f ∷ files) taken sum plain w = elim (check_file-cases self f taken sum) [
  | inl h ↦ ground (
    arith,
    h,
    check_file_iff self f taken sum plain,
    check_files_iff self files (f.filename ∷ taken) (sum + f.size) plain
        ((check_file_iff self f taken sum plain).0 h).3,
  )
  | inr (e, h) ↦ ground (
    arith,
    h,
    check_file_iff self f taken sum plain,
    Within-le (sum + f.size) (sum + (f.size + total files)) self.max_size,
  )
]

zero_Within : (limit : Option ℕ) → Within 0 limit
zero_Within limit = ground arith

-- Without a list of extensions the guard lets through just the files that are few enough, each of
-- them with a name of its own and small enough, and together small enough.
pub upload_files_guard_iff :
    (self : Limits) (files : List File)
    → self.has_extensions ≡ false
    → (upload_files_guard self files ≡ pass) ↔ (
        Within (length files) self.max_files
        × AreNamed self files []
        × Within (total files) self.max_size)
unfolding upload_files_guard
upload_files_guard_iff self files plain = ground (
  arith,
  exceeds_iff (length files) self.max_files,
  check_files_iff self files [] 0 plain (zero_Within self.max_size),
)

-- With a list of extensions no file whatever is let through: the check ends in an exception.
pub upload_files_guard-extensions :
    (self : Limits) (f : File) (files : List File)
    → self.has_extensions ≡ true
    → upload_files_guard self (f ∷ files) ≢ pass
unfolding upload_files_guard check_files check_file
upload_files_guard-extensions self f files h e = ground arith
