-- ===== src/Client/Session/Closed.antt =====
-- What a program has written by the time that it closes its file.
use client_server_file_syste.Base.{
  ℕ, ◌≡◌, ◌≢◌, sym, ap, ◌∙◌, subst, true, some, none, List, ◌∷◌, ◌++◌, All, Bytes, text, find,
}
use client_server_file_syste.Sys.{Os, ret}
use client_server_file_syste.Sys.Laws.{View, IsStore, content}
use client_server_file_syste.Sys.Contents.{content_of_node}
use client_server_file_syste.Rpc.Calls.{Stub}
use client_server_file_syste.Rpc.Transfer.{Streams}
use client_server_file_syste.Cache.{Cache, cached_path, temp_path, new_temp_path, is_temp_file}
use client_server_file_syste.Client.{World, recovery_of, is_file_modified, client_release}
use client_server_file_syste.Client.Saved.{IsQuiet}
use client_server_file_syste.Client.Recover.Plain.{IsPlain}
use client_server_file_syste.Client.Recover.Shown.{RenamesAll}
use client_server_file_syste.Client.Recover.Restart.{again_if_killed, closed_or_recovered}
use client_server_file_syste.Client.Session.{
  Request, believed_all, WritesAt, write_each, Holds, write_each-AllWritten,
}

some-injective {ℓ} : {A : Type ℓ} {x y : A} → some x ≡ some y → x ≡ y
some-injective e = cc (e)

module _ (os : Os) (v : View os) (laws : IsStore os v) (renames : RenamesAll os v)
    (quiet : IsQuiet os v) (fd : ℕ) (inode : os.Disk → ℕ) (law : WritesAt os v fd inode)
    {S W : Type 0} (stub : Stub S) (streams : Streams S W) (rands : ℕ → ℕ) where
  content-Holds :
      (temp b : Bytes) (d : os.Disk)
      → v.node d temp ≡ some (inode d)
      → content v d temp ≡ some b
      → Holds v inode temp b d
  content-Holds temp b d named h = record {
    named = named;
    bytes = some-injective (sym (content_of_node v d temp (inode d) named) ∙ h);
  }

  -- On a system that renames every file that is there, and closes the descriptor, and whose
  -- pwrite may be short: when a program has written to a file that `client_open` has given its
  -- temporary name, with no ".temp" in its cached path, by a descriptor that stands for it and is
  -- open without O_APPEND, and closes it, and the file counts as changed then, the cached file
  -- holds what the temporary file held, with the writes over it, in their order, each with as
  -- many of its bytes as the program was told, and none of those of a write that failed. So it is
  -- also if the client is killed at crash site 1 or 2, once it has started again. No other path
  -- that it finds in the cache then is one of a recovery file or of a temporary file.
  pub session_kept :
      (rs : List Request) (crash_site stack rand : ℕ) (path b : Bytes) (before after : List Bytes)
      (w : World S os.Disk)
      → is_temp_file fd w.cache ≡ true
      → temp_path w.cache fd ≡ new_temp_path w.cache path rand
      → v.node w.disk (temp_path w.cache fd) ≡ some (inode w.disk)
      → content v w.disk (temp_path w.cache fd) ≡ some b
      → find (text ".temp") (cached_path w.cache path) ≡ none
      → All IsPlain before
      → All IsPlain after
      → (is_file_modified os stub streams path fd
          (write_each os stub streams rands path fd rs w).1).0
        ≡ true
      → ((d : os.Disk) → (os.close d fd).0 ≡ ret tt)
      → crash_site ≢ 5
      → let (results, w') = write_each os stub streams rands path fd rs w in
        let listing = before ++ recovery_of (temp_path w.cache fd) ∷ after in
        content v
          (again_if_killed os stub streams stack listing
            (client_release os stub streams crash_site path (some fd) w')).disk
          (cached_path w.cache path)
        ≡ some (believed_all rs results b)
  session_kept rs crash_site stack rand path b before after w t name named h free hb ha modified
        closes site =
      let (results, w') = write_each os stub streams rands path fd rs w in
      let (same, holds) =
        write_each-AllWritten os v quiet fd inode law (temp_path w.cache fd) stub streams rands path
          rs b w (content-Holds (temp_path w.cache fd) b w.disk named h) in
      let shown : content v w'.disk (temp_path w.cache fd) ≡ some (believed_all rs results b) =
        content_of_node v w'.disk (temp_path w.cache fd) (inode w'.disk) holds.named
        ∙ ap some holds.bytes in
      subst
        (λ (c : Cache).
          content v
            (again_if_killed os stub streams stack (before ++ recovery_of (temp_path c fd) ∷ after)
              (client_release os stub streams crash_site path (some fd) w')).disk
            (cached_path c path)
          ≡ some (believed_all rs results b))
        same
        (closed_or_recovered os v laws renames quiet stub streams crash_site stack fd rand path
          (believed_all rs results b) before after w'
          (subst (λ (c : Cache). is_temp_file fd c ≡ true) (sym same) t)
          (subst (λ (c : Cache). temp_path c fd ≡ new_temp_path c path rand) (sym same) name)
          (subst (λ (c : Cache). find (text ".temp") (cached_path c path) ≡ none) (sym same) free)
          hb ha modified closes site
          (subst
            (λ (c : Cache). content v w'.disk (temp_path c fd) ≡ some (believed_all rs results b))
            (sym same) shown))
