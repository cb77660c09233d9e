-- ===== src/Rpc/Calls/Executed.antt =====
-- The calls and the handlers that they reach: a client of AFS/AfsClient.h against the server of
-- AFS/afsfuse_server.cc, over a network that loses requests and replies.
use client_server_file_syste.Base.{
  ℕ, zero, suc, ◌<◌, ◌^◌, ◌≡◌, refl, ap, ◌∙◌, ◌⊎◌, inl, inr, Bytes, arith,
}
use client_server_file_syste.Base.Int.{ℤ, pos, neg}
use client_server_file_syste.Sys.{Os, Sys, Stat, zero_stat, ret, err, Exit, returned, killed}
use client_server_file_syste.Messages.{
  Code, u32, sign_extend, StatReply, empty_stat, OutputInfo, empty_info, MkdirRequest,
}
use client_server_file_syste.Server.Paths.{server_path}
use client_server_file_syste.Server.Attributes.{fill_stat, afsfuse_getattr}
use client_server_file_syste.Server.Names.{afsfuse_mkdir}
use client_server_file_syste.Rpc.Retry.Outcome.{Ran, silent, replied, after, IsRpc, request-Ran}
use client_server_file_syste.Rpc.Calls.{Stub, stat_of_reply, stat_result, rpc_getattr, rpc_mkdir}

-- `EEXIST`
abbrev pub eexist : ℕ
eexist = 17

abbrev reply_of : Exit (Code × StatReply) → StatReply
reply_of (returned (c, r)) = r
reply_of killed = empty_stat

module _ (os : Os) (root : Bytes) where
  -- The reply of a handler, and the server behind it; no crash site is set.
  abbrev pub serve_getattr : Bytes → os.Disk → StatReply × os.Disk
  serve_getattr path d = (reply_of (afsfuse_getattr os root 0 path d), d)

  abbrev pub serve_mkdir : MkdirRequest → os.Disk → OutputInfo × os.Disk
  serve_mkdir m d = let ((c, r), d') = afsfuse_mkdir os root m d in (r, d')

after-fixed :
    {D R : Type 0} (handler : D → R × D) (n : ℕ) (d : D) → (handler d).1 ≡ d → after handler n d ≡ d
after-fixed handler zero d h = refl
after-fixed handler (suc n) d h = rw h (after-fixed handler n d h)

-- Of a handler that answers `first` once and `again` after that, from the second run on with no
-- change.
pub Ran-first :
    {D R : Type 0} {handler : D → R × D} {max : ℕ} {d made : D} {start first again r : R} {e : D}
    → handler d ≡ (first, made)
    → handler made ≡ (again, made)
    → Ran handler max d start r e
    → ((r ≡ start) × (e ≡ d)) ⊎ (((r ≡ start) ⊎ ((r ≡ first) ⊎ (r ≡ again))) × (e ≡ made))
Ran-first f g (silent zero h) = inl (refl, refl)
Ran-first {handler = handler} f g (silent (suc n) h) =
    inr (inl refl, rw f (after-fixed handler n _ (ap (λ x. x.1) g)))
Ran-first f g (replied zero h) = inr (inr (inl (ap (λ x. x.0) f)), ap (λ x. x.1) f)
Ran-first {handler = handler} {made = made} f g (replied (suc n) h) =
    let e : after handler (suc n) _ ≡ made = rw f (after-fixed handler n made (ap (λ x. x.1) g)) in
    inr (
      inr (inr (ap (λ x. (handler x).0) e ∙ ap (λ x. x.0) g)),
      ap (λ x. (handler x).1) e ∙ ap (λ x. x.1) g,
    )

-- Of a handler that changes nothing.
Ran-constant :
    {D R : Type 0} {handler : D → R × D} {max : ℕ} {d : D} {start r : R} {e : D}
    → (handler d).1 ≡ d
    → Ran handler max d start r e
    → ((r ≡ start) ⊎ (r ≡ (handler d).0)) × (e ≡ d)
Ran-constant {handler = handler} g (silent n h) = (inl refl, after-fixed handler n _ g)
Ran-constant {handler = handler} g (replied n h) =
    let e = after-fixed handler n _ g in
    (inr (ap (λ x. (handler x).0) e), ap (λ x. (handler x).1) e ∙ g)

-- The attributes that the messages have room for. The nanoseconds of `st_ctim` are not sent.
pub record Fits (st : Stat) : Type 0 where
  pub ino : st.ino < 2 ^ 32
  pub mode : st.mode < 2 ^ 32
  pub nlink : st.nlink < 2 ^ 32
  pub uid : st.uid < 2 ^ 32
  pub gid : st.gid < 2 ^ 32
  pub ctime : st.ctim.sec < 2 ^ 31

abbrev pub without_ctime_nsec : Stat → Stat
without_ctime_nsec st = record st { ctim = record { sec = st.ctim.sec; nsec = 0 } }

-- What the client makes of attributes that fit.
stat_of_reply-fill_stat :
    (st : Stat) → Fits st → stat_of_reply (fill_stat st) ≡ without_ctime_nsec st
stat_of_reply-fill_stat st f =
    let lo : (x : ℕ) → x < 2 ^ 32 → u32 x ≡ x = λ x h. omega (arith, h) in
    let c : sign_extend (u32 st.ctim.sec) ≡ st.ctim.sec = ground (arith, f.ctime) in
    rw
      (lo st.ino f.ino, lo st.mode f.mode, lo st.nlink f.nlink, lo st.uid f.uid, lo st.gid f.gid, c)
      refl

stat_result-err : (e : ℕ) → stat_result (record empty_stat { err = e }) ≡ (neg e, zero_stat)
stat_result-err zero = refl
stat_result-err (suc e) = ground arith

-- What a client is to see of the result of `lstat`.
abbrev pub Seen : Sys Stat → ℤ × Stat → Type 0
Seen (err e) res = res ≡ (neg e, zero_stat)
Seen (ret st) res = res ≡ (pos 0, without_ctime_nsec st)

module _ (os : Os) (root : Bytes) {S : Type 0} (stub : Stub S) (disk : S → os.Disk) where
  stat_result-Seen :
      (path : Bytes) (d : os.Disk) (x : Sys Stat)
      → os.lstat d (server_path root path) ≡ x
      → ((st : Stat) → x ≡ ret st → Fits st)
      → Seen x (stat_result (serve_getattr os root path d).0)
  unfolding afsfuse_getattr
  stat_result-Seen path d (err e) l fits = rw l (stat_result-err e)
  stat_result-Seen path d (ret st) l fits =
      rw l (ap (λ (x : Stat). (pos 0, x)) (stat_of_reply-fill_stat st (fits st refl)))

  -- A call of `rpc_getattr`, of which grpc runs each attempt at most once, before the attempt
  -- ends, leaves the server's disk alone, and gives one of three: the error of the server's
  -- `lstat`, negated, if that fails; what the server's `lstat` gives, without the nanoseconds of
  -- the change time, if that fits the message; or, if no reply arrived, success and attributes
  -- that are all zero.
  pub getattr_lem :
      (path : Bytes) (s : S)
      → IsRpc (stub.getattr path) disk (serve_getattr os root path)
      → ((st : Stat) → os.lstat (disk s) (server_path root path) ≡ ret st → Fits st)
      → let (res, s') = rpc_getattr stub path s in
        (disk s' ≡ disk s)
        × ((res ≡ (pos 0, zero_stat)) ⊎ Seen (os.lstat (disk s) (server_path root path)) res)
  unfolding rpc_getattr
  getattr_lem path s h fits =
      let run =
        Ran-constant refl
          (request-Ran (stub.getattr path) disk (serve_getattr os root path) empty_stat s h) in
      (
        run.1,
        elim run.0 [
          | inl p ↦ inl (ap stat_result p)
          | inr p ↦ inr (
              rw p (
                stat_result-Seen path (disk s) (os.lstat (disk s) (server_path root path)) refl
                  fits))
        ],
      )

  -- A call of `rpc_mkdir`, of which grpc runs each attempt at most once, for a directory that the
  -- server can make once: either nothing was made, no reply came and the call reports success; or
  -- the directory was made, and the call reports success or, when the reply to a run that made it
  -- was lost, EEXIST.
  mkdir_lem :
      (path : Bytes) (mode : ℕ) (s : S) (made : os.Disk)
      → IsRpc
          (stub.mkdir (record { s = path; mode = mode }))
          disk
          (serve_mkdir os root (record { s = path; mode = mode }))
      → os.mkdir (disk s) (server_path root path) mode ≡ (ret tt, made)
      → os.mkdir made (server_path root path) mode ≡ (err eexist, made)
      → let (res, s') = rpc_mkdir stub path mode s in
        ((res ≡ pos 0) × (disk s' ≡ disk s))
        ⊎ (((res ≡ pos 0) ⊎ (res ≡ neg eexist)) × (disk s' ≡ made))
  unfolding rpc_mkdir afsfuse_mkdir
  mkdir_lem path mode s made h m e =
      let run =
        Ran-first {made = made} {first = empty_info} {again = record empty_info { err = eexist }}
          (rw m refl) (rw e refl)
          (request-Ran (stub.mkdir (record { s = path; mode = mode })) disk
            (serve_mkdir os root (record { s = path; mode = mode })) empty_info s h) in
      ground (arith, run)
