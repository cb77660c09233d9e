-- ===== src/Stream/Reader/Chunks.antt =====
-- The loop of `SequentialFileReader::Read` hands on the mapped bytes, cut at multiples of the
-- chunk size.
use client_server_file_syste.Base.{
  ℕ, zero, suc, ◌+◌, ◌-◌, ◌≤◌, ◌<◌, min, ◌≡◌, refl, sym, ap, ◌∙◌, Bool, List, [], ◌∷◌, ◌++◌, Bytes,
  take, drop, length, arith, flatten, All, length-drop, length-take, drop-drop, drop_all, take-min,
  take-append-drop, drop-min,
}
use native.Mathlib.Decide.{dec_lt}
use client_server_file_syste.Sys.{Sys, ret, err}
use client_server_file_syste.Messages.{FileContent}
use client_server_file_syste.Stream.Reader.{Reader, contents, on_chunk_available, read_loop, read}

-- What the reader is given by `mmap`: as many bytes as `fstat` reported.
abbrev pub IsMapped : Reader → Type 0
IsMapped r = length (contents r) ≡ r.size

chunks : ℕ → ℕ → Bytes → List Bytes
chunks zero max bytes = []
chunks (suc fuel) max [] = []
chunks (suc fuel) max (x ∷ bytes) = take max (x ∷ bytes) ∷ chunks fuel max (drop max (x ∷ bytes))

-- An empty file is one empty chunk.
pub pieces : ℕ → Bytes → List Bytes
unfolding chunks
pieces max [] = [] ∷ []
pieces max (x ∷ bytes) = chunks (suc (suc (length bytes))) max (x ∷ bytes)

abbrev pub IsChunk : ℕ → Bytes → Type 0
IsChunk max c = (0 < length c) × (length c ≤ max)

chunks-flatten :
    (fuel max : ℕ) (bytes : Bytes)
    → 0 < max
    → length bytes < fuel
    → flatten (chunks fuel max bytes) ≡ bytes
unfolding chunks
chunks-flatten zero max bytes h f = elim f [ ]
chunks-flatten (suc fuel) max [] h f = refl
chunks-flatten (suc fuel) max (x ∷ bytes) h f =
    ap (◌++◌ (take max (x ∷ bytes))) (
      chunks-flatten fuel max (drop max (x ∷ bytes)) h (omega (arith, length-drop max (x ∷ bytes))))
    ∙ take-append-drop max (x ∷ bytes)

chunks-IsChunk :
    (fuel max : ℕ) (bytes : Bytes) → 0 < max → All (IsChunk max) (chunks fuel max bytes)
unfolding chunks
chunks-IsChunk zero max bytes h = tt
chunks-IsChunk (suc fuel) max [] h = tt
chunks-IsChunk (suc fuel) max (x ∷ bytes) h =
    (omega (arith, length-take max (x ∷ bytes)), chunks-IsChunk fuel max (drop max (x ∷ bytes)) h)

pub pieces-flatten : (max : ℕ) (bytes : Bytes) → 0 < max → flatten (pieces max bytes) ≡ bytes
unfolding pieces
pieces-flatten max [] h = refl
pieces-flatten max (x ∷ bytes) h =
    chunks-flatten (suc (suc (length bytes))) max (x ∷ bytes) h (omega arith)

chunks_step :
    (fuel max : ℕ) (bytes : Bytes)
    → 0 < length bytes
    → chunks (suc fuel) max bytes ≡ take max bytes ∷ chunks fuel max (drop max bytes)
unfolding chunks
chunks_step fuel max [] h = absurd (omega arith)
chunks_step fuel max (x ∷ bytes) h = refl

All-map {ℓ κ μ} :
    {A : Type ℓ} {P : A → Type κ} {Q : A → Type μ} (f : (a : A) → P a → Q a) (xs : List A)
    → All P xs
    → All Q xs
All-map f [] h = tt
All-map f (x ∷ xs) h = (f x h.0, All-map f xs h.1)

pieces-bounded : (max : ℕ) (bytes : Bytes) → 0 < max → All (λ c. length c ≤ max) (pieces max bytes)
unfolding pieces
pieces-bounded max [] h = omega arith
pieces-bounded max (x ∷ bytes) h =
    All-map {P = IsChunk max} (λ c b. b.1) (chunks (suc (suc (length bytes))) max (x ∷ bytes))
      (chunks-IsChunk (suc (suc (length bytes))) max (x ∷ bytes) h)

module _ {W : Type 0} (write : FileContent → W → Bool × W) (r : Reader) where
  -- The callback on each chunk in turn, up to the first that throws.
  pub send_each : List Bytes → W → Sys (Unit {0}) × W
  send_each [] w = (ret tt, w)
  send_each (c ∷ cs) w =
      let (res, w') = on_chunk_available write r c w in
      elim res [ err e ↦ (err e, w') | ret _ ↦ send_each cs w' ]

  pub send_each_nil : (w : W) → send_each [] w ≡ (ret tt, w)
  unfolding send_each
  send_each_nil w = refl

  pub send_each_cons :
      (c : Bytes) (cs : List Bytes) (w : W)
      → send_each (c ∷ cs) w ≡ (
          let (res, w') = on_chunk_available write r c w in
          elim res [ err e ↦ (err e, w') | ret _ ↦ send_each cs w' ])
  unfolding send_each
  send_each_cons c cs w = refl

  read_loop_end :
      (fuel max off : ℕ) (w : W) → r.size ≤ off → read_loop write fuel r max off w ≡ (ret tt, w)
  unfolding read_loop
  read_loop_end zero max off w h = refl
  read_loop_end (suc fuel) max off w h = ground arith

  read_loop_zero : (max off : ℕ) (w : W) → read_loop write 0 r max off w ≡ (ret tt, w)
  unfolding read_loop
  read_loop_zero max off w = refl

  -- One round of the loop, at the bytes that are left.
  read_loop_step :
      (fuel max off : ℕ) (w : W)
      → IsMapped r
      → off < r.size
      → read_loop write (suc fuel) r max off w ≡ (
          let (res, w') = on_chunk_available write r (take max (drop off (contents r))) w in
          elim res [
            | err e ↦ (err e, w')
            | ret _ ↦ read_loop write fuel r max (off + min max (r.size - off)) w'
          ])
  unfolding read_loop
  read_loop_step fuel max off w m h = ground (
    arith,
    take-min max (min max (r.size - off)) (drop off (contents r))
        (omega (arith, length-drop off (contents r))),
  )

  drop_next :
      (max off : ℕ)
      → IsMapped r
      → drop (off + min max (r.size - off)) (contents r) ≡ drop max (drop off (contents r))
  drop_next max off m =
      sym (drop-drop off (min max (r.size - off)) _ (contents r) refl)
      ∙ drop-min max _ (drop off (contents r)) (omega (arith, length-drop off (contents r)))

  read_loop-send_each :
      (fuel max off : ℕ) (w : W)
      → IsMapped r
      → read_loop write fuel r max off w ≡ send_each (chunks fuel max (drop off (contents r))) w
  unfolding chunks send_each
  read_loop-send_each zero max off w m = read_loop_zero max off w
  read_loop-send_each (suc fuel) max off w m = elim (dec_lt off r.size) [
    | yes h ↦
        rw
          (
            read_loop_step fuel max off w m h,
            chunks_step fuel max (drop off (contents r))
                (omega (arith, length-drop off (contents r))),
          )
          (ground (
            arith,
            drop_next max off m,
            read_loop-send_each fuel max (off + min max (r.size - off))
                (on_chunk_available write r (take max (drop off (contents r))) w).1 m,
          ))
    | no h ↦
        rw (
          read_loop_end (suc fuel) max off w (omega arith),
          drop_all off (contents r) (omega arith),
        )
  ]

  send_each_one : (c : Bytes) (w : W) → send_each (c ∷ []) w ≡ on_chunk_available write r c w
  unfolding send_each
  send_each_one c w = ground arith

  read_empty : (max : ℕ) (w : W) → r.size ≡ 0 → read write r max w ≡ on_chunk_available write r [] w
  unfolding read
  read_empty max w e = rw e

  read_some :
      (max : ℕ) (w : W) → 0 < r.size → read write r max w ≡ read_loop write (suc r.size) r max 0 w
  unfolding read
  read_some max w h = ground arith

  -- `Read` calls back once for each piece, in order, until a call throws; the pieces are the
  -- file.
  pub read-send_each :
      (max : ℕ) (w : W) → IsMapped r → read write r max w ≡ send_each (pieces max (contents r)) w
  unfolding pieces
  read-send_each max w m = go (contents r) refl
    where
      go :
          (bytes : Bytes)
          → contents r ≡ bytes
          → read write r max w ≡ send_each (pieces max (contents r)) w
      go [] e = rw (read_empty max w (sym m ∙ ap length e), e, send_each_one)
      go (x ∷ bytes) e =
          let n : r.size ≡ suc (length bytes) = sym m ∙ ap length e in
          read_some max w (omega arith)
          ∙ (read_loop-send_each (suc r.size) max 0 w m
              ∙ rw e (ap (λ (k : ℕ). send_each (chunks (suc k) max (x ∷ bytes)) w) n))

  -- Of a file that is mapped whole, and at a chunk size above 0, `Read` calls back once for each
  -- part of a cut of the file: the parts follow one another in order, none is longer than the
  -- chunk size, together they are the file, and a call that throws ends the reading.
  pub read_lem :
      (max : ℕ) (w : W)
      → IsMapped r
      → 0 < max
      → (cs : List Bytes) × (read write r max w ≡ send_each cs w)
        × (flatten cs ≡ contents r)
        × All (λ c. length c ≤ max) cs
  read_lem max w m h = (
    pieces max (contents r),
    read-send_each max w m,
    pieces-flatten max (contents r) h,
    pieces-bounded max (contents r) h,
  )

-- There is always a piece.
pub pieces-some :
    (max : ℕ) (bytes : Bytes) → (c : Bytes) × (cs : List Bytes) × (pieces max bytes ≡ c ∷ cs)
unfolding pieces chunks
pieces-some max [] = ([], [], refl)
pieces-some max (x ∷ bytes) =
    (take max (x ∷ bytes), chunks (suc (length bytes)) max (drop max (x ∷ bytes)), refl)
