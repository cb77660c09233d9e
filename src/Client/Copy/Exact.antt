-- ===== src/Client/Copy/Exact.antt =====
-- `cp` copies the whole file, also when `write` takes less than it is given.
use client_server_file_syste.Base.{
  ℕ, zero, suc, ◌+◌, ◌≤◌, ◌<◌, ◌≡◌, refl, sym, ap, ◌∙◌, [], ◌∷◌, ◌++◌, Bytes, take, drop, length,
  arith, append_assoc, append-nil, take-append-drop, length-take, length-drop, length-append,
  drop_all, drop-append,
}
use native.Mathlib.Decide.{dec_lt}
use client_server_file_syste.Sys.{Os, Sys, ret, err}
use client_server_file_syste.Client.Copy.{buffer_size, write_all, copy_loop, after_copy}

-- Two descriptors on which no call fails while `Good` holds of the disk: `file` is what the file of
-- a descriptor holds. `pread` gives what stands there; `pwrite` at the end of the target takes at
-- least one byte.
pub record IsCopying (os : Os) (from to : ℕ) (file : os.Disk → ℕ → Bytes) (Good : os.Disk → Type 0)
    : Type 0 where
  pub pread :
      (d : os.Disk) (n off : ℕ)
      → Good d
      → os.pread d from n off ≡ ret (take n (drop off (file d from)))
  pub taken : os.Disk → Bytes → ℕ → ℕ
  pub pwrite :
      (d : os.Disk) (bytes : Bytes) (off : ℕ)
      → Good d
      → 0 < length bytes
      → off ≡ length (file d to)
      → ((os.pwrite d to bytes off).0 ≡ ret (taken d bytes off))
        × (0 < taken d bytes off)
        × (taken d bytes off ≤ length bytes)
        × (file (os.pwrite d to bytes off).1 to ≡ file d to ++ take (taken d bytes off) bytes)
        × (file (os.pwrite d to bytes off).1 from ≡ file d from)
        × Good (os.pwrite d to bytes off).1

module _ (os : Os) (from to : ℕ) (file : os.Disk → ℕ → Bytes) (Good : os.Disk → Type 0)
    (ok : IsCopying os from to file Good) where
  -- All of the bytes stand behind what the target held.
  record Appended (bytes : Bytes) (d : os.Disk) (res : Sys ℕ × os.Disk) : Type 0 where
    at_end : res.0 ≡ ret (length (file res.1 to))
    target : file res.1 to ≡ file d to ++ bytes
    source : file res.1 from ≡ file d from
    good : Good res.1

  write_all_last :
      (fuel n : ℕ) (bytes : Bytes) (off : ℕ) (d : os.Disk)
      → (os.pwrite d to bytes off).0 ≡ ret n
      → length bytes ≤ n
      → write_all os (suc fuel) to bytes off d ≡ (ret (off + n), (os.pwrite d to bytes off).1)
  unfolding write_all
  write_all_last fuel n bytes off d e l = ground (arith, e, l)

  write_all_more :
      (fuel n : ℕ) (bytes : Bytes) (off : ℕ) (d : os.Disk)
      → (os.pwrite d to bytes off).0 ≡ ret n
      → n < length bytes
      → write_all os (suc fuel) to bytes off d
        ≡ write_all os fuel to (drop n bytes) (off + n) (os.pwrite d to bytes off).1
  unfolding write_all
  write_all_more fuel n bytes off d e l = ground (arith, e, l)

  write_all-Appended :
      (fuel : ℕ) (bytes : Bytes) (off : ℕ) (d : os.Disk)
      → Good d
      → 0 < length bytes
      → length bytes ≤ fuel
      → off ≡ length (file d to)
      → Appended bytes d (write_all os fuel to bytes off d)
  write_all-Appended zero bytes off d g some' enough at' = absurd (omega arith)
  write_all-Appended (suc fuel) bytes off d g some' enough at' =
      let (e, progress, within, target, source, good) = ok.pwrite d bytes off g some' at' in
      let n = ok.taken d bytes off in
      let d' = (os.pwrite d to bytes off).1 in
      let grown : off + n ≡ length (file d' to) =
        omega (
          arith,
          ap length target,
          length-append (file d to) (take n bytes),
          length-take n bytes,
        ) in
      elim (dec_lt n (length bytes)) [
        | no l ↦
            let all : take n bytes ≡ bytes =
              sym (append-nil (take n bytes))
              ∙ (ap (◌++◌ (take n bytes)) (sym (drop_all n bytes (omega (arith, l))))
                  ∙ take-append-drop n bytes) in
            rw (write_all_last fuel n bytes off d e (omega (arith, l))) (record {
              at_end = ap ret grown;
              target = target ∙ ap (◌++◌ (file d to)) all;
              source = source;
              good = good;
            })
        | yes l ↦
            let rest =
              write_all-Appended fuel (drop n bytes) (off + n) d' good
                (omega (arith, l, length-drop n bytes))
                (omega (arith, progress, enough, length-drop n bytes)) grown in
            rw (write_all_more fuel n bytes off d e l) (record {
              at_end = rest.at_end;
              target =
                  rest.target
                  ∙ (ap (◌++ drop n bytes) target
                      ∙ (append_assoc (file d to) (take n bytes) (drop n bytes)
                          ∙ ap (◌++◌ (file d to)) (take-append-drop n bytes)));
              source = rest.source ∙ source;
              good = rest.good;
            })
      ]

  copy_loop_end :
      (tries rounds off : ℕ) (d : os.Disk)
      → os.pread d from buffer_size off ≡ ret []
      → copy_loop os tries (suc rounds) from to off d ≡ (ret tt, d)
  unfolding copy_loop
  copy_loop_end tries rounds off d e = ground (arith, e)

  copy_loop_step :
      (tries rounds off off' : ℕ) (b : ℕ) (bs : Bytes) (d : os.Disk)
      → os.pread d from buffer_size off ≡ ret (b ∷ bs)
      → (write_all os tries to (b ∷ bs) off d).0 ≡ ret off'
      → copy_loop os tries (suc rounds) from to off d
        ≡ copy_loop os tries rounds from to off' (write_all os tries to (b ∷ bs) off d).1
  unfolding copy_loop
  copy_loop_step tries rounds off off' b bs d e w = ground (arith, e, w)

  read_next :
      (left : Bytes) (off : ℕ) (d : os.Disk)
      → Good d
      → off ≡ length (file d to)
      → file d from ≡ file d to ++ left
      → os.pread d from buffer_size off ≡ ret (take buffer_size left)
  read_next left off d g at' whole =
      ok.pread d buffer_size off g
      ∙ ap (λ (x : Bytes). ret (take buffer_size x))
          (ap (drop off) whole
            ∙ (ap (λ (k : ℕ). drop k (file d to ++ left)) at' ∙ drop-append (file d to) left))

  abbrev Copies : ℕ → ℕ → ℕ → os.Disk → Type 0
  Copies tries rounds off d =
      (d' : os.Disk) × (copy_loop os tries rounds from to off d ≡ (ret tt, d'))
      × (file d' to ≡ file d from)
      × (file d' from ≡ file d from)
      × Good d'

  copy_loop-Copies :
      (k tries rounds : ℕ) (left : Bytes) (off : ℕ) (d : os.Disk)
      → buffer_size ≡ suc k
      → Good d
      → off ≡ length (file d to)
      → file d from ≡ file d to ++ left
      → length left < rounds
      → length left ≤ tries
      → Copies tries rounds off d
  copy_loop-Copies k tries zero left off d size g at' whole r t = absurd (omega (arith, r))
  copy_loop-Copies k tries (suc rounds) [] off d size g at' whole r t = (
    d,
    copy_loop_end tries rounds off d
        (read_next [] off d g at' whole ∙ ap (λ (n : ℕ). ret (take n [])) size),
    sym (whole ∙ append-nil (file d to)),
    refl,
    g,
  )
  copy_loop-Copies k tries (suc rounds) (b ∷ left) off d size g at' whole r t =
      let next : Bytes = take k left in
      let w =
        write_all-Appended tries (b ∷ next) off d g (omega arith)
          (omega (arith, t, length-take k left)) at' in
      let d' = (write_all os tries to (b ∷ next) off d).1 in
      let joined : (file d to ++ b ∷ next) ++ drop k left ≡ file d to ++ b ∷ left =
        append_assoc (file d to) (b ∷ next) (drop k left)
        ∙ ap (λ (x : Bytes). file d to ++ b ∷ x) (take-append-drop k left) in
      let more : file d' from ≡ file d' to ++ drop k left =
        w.source ∙ (whole ∙ (sym joined ∙ ap (◌++ drop k left) (sym w.target))) in
      let (d'', done, copied, source, good) =
        copy_loop-Copies k tries rounds (drop k left) (length (file d' to)) d' size w.good refl more
          (omega (arith, r, length-drop k left)) (omega (arith, t, length-drop k left)) in
      (
        d'',
        copy_loop_step tries rounds off (length (file d' to)) b next d
              (read_next (b ∷ left) off d g at' whole
                ∙ ap (λ (n : ℕ). ret (take n (b ∷ left))) size)
              w.at_end
            ∙ done,
        copied ∙ w.source,
        source ∙ w.source,
        good,
      )

  -- On two descriptors on which no call fails while `Good` holds, which it keeps, where a write
  -- takes at least one byte, and with fuel above the number of bytes of the source, the loop of
  -- `cp` into an empty target ends with success, the target holds what the source held and still
  -- holds, and `Good` holds.
  pub copy_loop_lem :
      (fuel : ℕ) (d : os.Disk)
      → Good d
      → file d to ≡ []
      → length (file d from) < fuel
      → (d' : os.Disk) × (copy_loop os fuel fuel from to 0 d ≡ (ret tt, d'))
        × (file d' to ≡ file d from)
        × (file d' from ≡ file d from)
        × Good d'
  copy_loop_lem fuel d good empty enough =
      copy_loop-Copies 131071 fuel fuel (file d from) 0 d (omega arith) good (sym (ap length empty))
        (sym (ap (◌++ file d from) empty)) enough (omega (arith, enough))

module _ (os : Os) (from to : ℕ) where
  -- Behind a loop that ended well, both descriptors are closed.
  pub after_copy-ret :
      (r : Sys (Unit {0}) × os.Disk)
      → r.0 ≡ ret tt
      → (after_copy os from to r).1 ≡ (os.close (os.close r.1 to).1 from).1
  unfolding after_copy
  after_copy-ret (ret _, d) e = refl
  after_copy-ret (err n, d) e = absurd cc
