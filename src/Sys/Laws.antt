-- ===== src/Sys/Laws.antt =====
-- What the program relies on when it writes a file through a stream and renames it. A `View`
-- looks at a disk as names that stand for files; `IsStore` is the documented behaviour of
-- `std::ofstream`, of rename(2) and of `mkdir -p` in these terms.
use client_server_file_syste.Base.{
  ℕ, ◌≡◌, ◌≢◌, Bool, true, Option, none, some, [], ◌∷◌, ◌++◌, ◌&&◌, ◌||◌, Bytes, text, leb, ◌==◌,
}
use client_server_file_syste.Sys.{Os, ret, err}

pub record View (os : Os) : Type 0 where
  -- The regular file that a path names.
  pub node : os.Disk → Bytes → Option ℕ
  -- What the file holds.
  pub bytes_of : os.Disk → ℕ → Bytes
  -- What an output stream has taken and not yet passed on to its file.
  pub held : os.Disk → ℕ → Bytes
  -- What does not get into the file when an output stream is closed: nothing, unless writing it
  -- fails. The program is not told.
  pub lost : os.Disk → ℕ → Bytes
  -- The file that an output stream writes.
  pub target : os.Disk → ℕ → ℕ

module _ {os : Os} (v : View os) where
  -- What a reader of the path sees.
  abbrev pub content : os.Disk → Bytes → Option Bytes
  content d p = elim (v.node d p) [ none ↦ none | some i ↦ some (v.bytes_of d i) ]

  -- Nothing that the view shows has changed.
  pub record Same (d d' : os.Disk) : Type 0 where
    pub names : (q : Bytes) → v.node d' q ≡ v.node d q
    pub bytes : (i : ℕ) → v.bytes_of d' i ≡ v.bytes_of d i
    pub helds : (h : ℕ) → v.held d' h ≡ v.held d h
    pub targets : (h : ℕ) → v.target d' h ≡ v.target d h

  -- The path names an empty file, which is new if the path named none.
  pub record Opened (d : os.Disk) (p : Bytes) (h : ℕ) (d' : os.Disk) : Type 0 where
    pub named : v.node d' p ≡ some (v.target d' h)
    pub empty : v.bytes_of d' (v.target d' h) ≡ []
    pub nothing_held : v.held d' h ≡ []
    pub other_names : (q : Bytes) → q ≢ p → v.node d' q ≡ v.node d q
    pub other_bytes : (i : ℕ) → i ≢ v.target d' h → v.bytes_of d' i ≡ v.bytes_of d i
    pub fresh : (q : Bytes) → v.node d p ≡ none → v.node d q ≢ some (v.target d' h)

  -- The bytes have been taken, into the file or into the buffer.
  pub record Written (d : os.Disk) (h : ℕ) (bytes : Bytes) (d' : os.Disk) : Type 0 where
    pub names : (q : Bytes) → v.node d' q ≡ v.node d q
    pub targets : (k : ℕ) → v.target d' k ≡ v.target d k
    pub taken :
        v.bytes_of d' (v.target d h) ++ v.held d' h
        ≡ (v.bytes_of d (v.target d h) ++ v.held d h) ++ bytes
    pub other_bytes : (i : ℕ) → i ≢ v.target d h → v.bytes_of d' i ≡ v.bytes_of d i

  -- A write failed, and has spoilt at most the file that it was for.
  pub record Spoilt (d : os.Disk) (h : ℕ) (d' : os.Disk) : Type 0 where
    pub names : (q : Bytes) → v.node d' q ≡ v.node d q
    pub targets : (k : ℕ) → v.target d' k ≡ v.target d k
    pub other_bytes : (i : ℕ) → i ≢ v.target d h → v.bytes_of d' i ≡ v.bytes_of d i

  -- The path may be gone; no file has changed.
  pub record Removed (d : os.Disk) (p : Bytes) (d' : os.Disk) : Type 0 where
    pub other_names : (q : Bytes) → q ≢ p → v.node d' q ≡ v.node d q
    pub bytes : (i : ℕ) → v.bytes_of d' i ≡ v.bytes_of d i

  -- The buffer has gone into the file, but for an end of it that is lost.
  pub record Closed (d : os.Disk) (h : ℕ) (d' : os.Disk) : Type 0 where
    pub names : (q : Bytes) → v.node d' q ≡ v.node d q
    pub kept : Bytes
    pub buffer : v.held d h ≡ kept ++ v.lost d h
    pub flushed : v.bytes_of d' (v.target d h) ≡ v.bytes_of d (v.target d h) ++ kept
    pub other_bytes : (i : ℕ) → i ≢ v.target d h → v.bytes_of d' i ≡ v.bytes_of d i

  -- The path shows the bytes but for an end of them, which was lost when the stream was closed that
  -- held it.
  pub record Delivered (p got : Bytes) (d : os.Disk) : Type 0 where
    pub before : os.Disk
    pub stream : ℕ
    pub closed : d ≡ os.out_close before stream
    pub kept : Bytes
    pub buffer : v.held before stream ≡ kept ++ v.lost before stream
    pub shown : Bytes
    pub shows : content d p ≡ some shown
    pub whole : shown ++ v.lost before stream ≡ got

  pub record Renamed (d : os.Disk) (from to : Bytes) (d' : os.Disk) : Type 0 where
    pub moved : v.node d' to ≡ v.node d from
    pub gone : from ≢ to → v.node d' from ≡ none
    pub other_names : (q : Bytes) → q ≢ from → q ≢ to → v.node d' q ≡ v.node d q
    pub bytes : (i : ℕ) → v.bytes_of d' i ≡ v.bytes_of d i
    pub helds : (k : ℕ) → v.held d' k ≡ v.held d k
    pub targets : (k : ℕ) → v.target d' k ≡ v.target d k

-- The characters that the shell takes as they are.
abbrev plain_char : ℕ → Bool
plain_char c =
    (leb b'a' c && leb c b'z')
    || (leb b'A' c && leb c b'Z')
    || (leb b'-' c && leb c b'9')
    || (c == b'_')

abbrev pub is_plain : Bytes → Bool
is_plain [] = true
is_plain (c ∷ s) = plain_char c && is_plain s

pub record IsStore (os : Os) (v : View os) : Type 0 where
  pub out_open-ret :
      (d : os.Disk) (p : Bytes) (h : ℕ) (d' : os.Disk)
      → os.out_open d p ≡ (ret h, d')
      → Opened v d p h d'
  pub out_open-err :
      (d : os.Disk) (p : Bytes) (e : ℕ) (d' : os.Disk) → os.out_open d p ≡ (err e, d') → Same v d d'
  pub out_write-ret :
      (d : os.Disk) (h : ℕ) (bytes : Bytes) (d' : os.Disk)
      → os.out_write d h bytes ≡ (ret tt, d')
      → Written v d h bytes d'
  pub out_write-err :
      (d : os.Disk) (h : ℕ) (bytes : Bytes) (e : ℕ) (d' : os.Disk)
      → os.out_write d h bytes ≡ (err e, d')
      → Spoilt v d h d'
  pub remove : (d : os.Disk) (p : Bytes) → Removed v d p (os.remove d p)
  pub out_close : (d : os.Disk) (h : ℕ) → Closed v d h (os.out_close d h)
  pub rename-ret :
      (d : os.Disk) (from to : Bytes) (d' : os.Disk)
      → os.rename d from to ≡ (ret tt, d')
      → Renamed v d from to d'
  pub rename-err :
      (d : os.Disk) (from to : Bytes) (e : ℕ) (d' : os.Disk)
      → os.rename d from to ≡ (err e, d')
      → Same v d d'
  pub rename-errno :
      (d : os.Disk) (from to : Bytes) (e : ℕ) (d' : os.Disk)
      → os.rename d from to ≡ (err e, d')
      → e ≢ 0
  pub system-errno :
      (d : os.Disk) (command : Bytes) (e : ℕ) (d' : os.Disk)
      → os.system d command ≡ (err e, d')
      → e ≢ 0
  pub make_dirs :
      (d : os.Disk) (path : Bytes)
      → is_plain path ≡ true
      → Same v d (os.system d (text "mkdir -p " ++ path)).1
