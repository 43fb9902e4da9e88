-- ===== src/Collector/Files.antt =====
-- How crates/leelo-collector/src/reconcile.rs reads a file it holds open, `read_held`. The file
-- system is a parameter: the file that a path opens to, without following links, if it opens.
use leelo.Base.{
  ℕ, ◌%◌, ◌^◌, List, [], ◌∷◌, Bool, not, ◌&&◌, Option, none, some, ltb, ◌==◌, ◌+◌, length, take,
  Result, ok, err, ◌>>=◌, ◌>>◌, guard, bit_and,
}
use leelo.Collector.Types.{
  Error, FileIdentity, open_failed, untrusted_file, unsupported_filesystem, read_failed,
  input_exceeds_bound,
}
use leelo.Collector.Boots.{contains}

pub record Metadata : Type 0 where
  pub is_file : Bool
  pub len : ℕ
  pub uid : ℕ
  pub mode : ℕ
  pub dev : ℕ
  pub ino : ℕ

-- What the calls on an open file give; each of them may fail.
pub record OpenFile : Type 0 where
  pub metadata : Option Metadata
  pub filesystem : Option ℕ
  pub content : Option (List ℕ)

abbrev pub or_error {ℓ} : {A : Type ℓ} → Error → Option A → Result Error A
or_error e none = err e
or_error e (some a) = ok a

-- ext2/3/4, btrfs, xfs, tmpfs, ramfs, overlayfs and f2fs.
abbrev pub local_filesystems : List ℕ
local_filesystems =
    61267 ∷ 2435016766 ∷ 1481003842 ∷ 16914836 ∷ 2240043254 ∷ 2035054128 ∷ 4076150800 ∷ []

-- A regular file within the limit, of root or of this user, that no one else may write (0o022).
unfoldable pub is_trusted : ℕ → ℕ → Metadata → Bool
is_trusted euid limit m =
    m.is_file
    && not (ltb limit m.len)
    && not (not (m.uid == 0) && not (m.uid == euid))
    && bit_and m.mode 18 == 0

module _ (open_file : List ℕ → Option OpenFile) (euid : ℕ) where
  unfoldable pub read_held : List ℕ → ℕ → Result Error (List ℕ × FileIdentity)
  read_held path limit = do
    file ← or_error open_failed (open_file path)
    metadata ← or_error open_failed file.metadata
    guard (is_trusted euid limit metadata) untrusted_file
    filesystem ← or_error open_failed file.filesystem
    guard (contains local_filesystems (filesystem % 2 ^ 32)) unsupported_filesystem
    content ← or_error read_failed file.content
    bytes ← ok (take (limit + 1) content)
    guard (not (ltb limit (length bytes))) input_exceeds_bound
    ok (bytes, record { device = metadata.dev; inode = metadata.ino })
