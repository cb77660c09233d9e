-- ===== src/Rpc/Transfer/Put.antt =====
-- A file that is sent to the server: the client's reader, the stream, and the server's handler.
use client_server_file_syste.Base.{
  subst, ℕ, ◌≡◌, ◌≢◌, refl, sym, ap, ◌∙◌, ◌⊎◌, inl, inr, true, false, none, List, [], ◌∷◌, ◌++◌,
  map, Bytes, flatten, arith,
}
use client_server_file_syste.Base.Int.{pos}
use client_server_file_syste.Sys.{Os, ret, err}
use client_server_file_syste.Sys.Laws.{Delivered, View, IsStore, content, is_plain}
use client_server_file_syste.Messages.{ok, FileContent}
use client_server_file_syste.Stream.Reader.{Reader, construct, contents, stream_file}
use client_server_file_syste.Stream.Reader.Chunks.{
  IsMapped, pieces, pieces-flatten, pieces-some, read-send_each,
}
use client_server_file_syste.Stream.Reader.Send.{stream_file-ret, stream_file-err}
use client_server_file_syste.Stream.Reader.Sent.{message, send_each-sent}
use client_server_file_syste.Stream.Reader.Leak.{construct-file_path}
use client_server_file_syste.Server.Paths.{parent, upload_temp, upload_final}
use client_server_file_syste.Server.Upload.{afsfuse_put_file}
use client_server_file_syste.Server.Upload.Laws.{received, put_file_lem}
use client_server_file_syste.Rpc.Transfer.{Streams, chunk_size, put_attempt, rpc_put_file}

-- What grpc promises of a stream to the handler of a server: `W` holds the messages that were
-- taken, and the server as it was when the stream began; a status OK is that of a handler that ran
-- on all of them. The handler's `rand()` is not known.
pub record IsUpload {S W : Type 0} (streams : Streams S W) (host : Os) (root : Bytes)
    (server : S → host.Disk) : Type 0 where
  pub sent : W → List FileContent
  pub base : W → host.Disk
  pub start : (s : S) → (sent (streams.start s) ≡ []) × (base (streams.start s) ≡ server s)
  pub send :
      (m : FileContent) (w : W)
      → (streams.send m w).0 ≡ true
      → (sent (streams.send m w).1 ≡ sent w ++ (m ∷ [])) × (base (streams.send m w).1 ≡ base w)
  pub close :
      (w : W)
      → (streams.close w).0 ≡ ok
      → (rand : ℕ) × (server (streams.close w).1
          ≡ (afsfuse_put_file host root rand (sent w) (base w)).1)

abbrev part_of : Bytes → Bytes → FileContent
part_of path c = record { name = path; content = c }

contents_of : (path : Bytes) (cs : List Bytes) → map (λ m. m.content) (map (part_of path) cs) ≡ cs
contents_of path [] = refl
contents_of path (c ∷ cs) = ap (◌∷◌ c) (contents_of path cs)

-- The path shows the bytes, but for an end that was lost on close, or what it showed before.
abbrev pub Replaced : {host : Os} → View host → host.Disk → host.Disk → Bytes → Bytes → Type 0
Replaced v d d' p bytes = Delivered v p bytes d' ⊎ (content v d' p ≡ content v d p)

module _ (os : Os) {S W : Type 0} (streams : Streams S W) (host : Os) (v : View host)
    (laws : IsStore host v) (server_root : Bytes) (server : S → host.Disk)
    (up : IsUpload streams host server_root server) where
  put_attempt-parts :
      (root path : Bytes) (s : S) (d : os.Disk)
      → (put_attempt os streams root path s d).0 ≡ (false, ok)
      → let out = stream_file os streams.send root path chunk_size (streams.start s) d in
        (out.0 ≡ ret tt)
        × ((streams.close out.1).0 ≡ ok)
        × ((put_attempt os streams root path s d).1 ≡ (streams.close out.1).1)
  unfolding put_attempt
  put_attempt-parts root path s d e = ground arith

  -- The messages of a file are the pieces of its bytes.
  put_attempt-delivers :
      (root path : Bytes) (s : S) (d : os.Disk) (r : Reader)
      → (construct os root path d).0 ≡ ret r
      → IsMapped r
      → (put_attempt os streams root path s d).0 ≡ (false, ok)
      → (rand : ℕ) × (server (put_attempt os streams root path s d).1
          ≡ (afsfuse_put_file host server_root rand
              (map (part_of path) (pieces chunk_size (contents r)))
              (server s)).1)
  put_attempt-delivers root path s d r c m e =
      let (res, closed, end) = put_attempt-parts root path s d e in
      let (res', w') =
        stream_file-ret os streams.send root path chunk_size (streams.start s) d r c in
      let each = read-send_each streams.send r chunk_size (streams.start s) m in
      let (order, kept) =
        send_each-sent streams.send r up.sent up.base up.send (pieces chunk_size (contents r))
          (streams.start s) (sym (ap (λ x. x.0) each) ∙ (sym res' ∙ res)) in
      let w = w' ∙ ap (λ x. x.1) each in
      let (none_sent, as_now) = up.start s in
      let (rand, served) = up.close _ closed in
      let parts : up.sent (stream_file os streams.send root path chunk_size (streams.start s) d).1
          ≡ map (part_of path) (pieces chunk_size (contents r)) =
        ap up.sent w
        ∙ (order
            ∙ (ap (◌++ map (message streams.send r) (pieces chunk_size (contents r))) none_sent
                ∙ ap (λ (p : Bytes). map (part_of p) (pieces chunk_size (contents r)))
                    (construct-file_path os root path d c))) in
      let before = ap up.base w ∙ (kept ∙ as_now) in
      (rand, ap server end ∙ (served ∙ rw (parts, before) refl))

  Outcome-Replaced :
      (rand : ℕ) (path : Bytes) (d : host.Disk) (cs : List Bytes) (bytes : Bytes)
      → (c : Bytes) × (rest : List Bytes) × (cs ≡ c ∷ rest)
      → flatten cs ≡ bytes
      → ((n : ℕ) → v.node d (upload_temp server_root n path) ≡ none)
      → is_plain (parent (upload_final server_root path)) ≡ true
      → let d' = (afsfuse_put_file host server_root rand (map (part_of path) cs) d).1 in
        Replaced v d d' (upload_final server_root path) bytes
        × ((q : Bytes)
            → q ≢ upload_temp server_root rand path
            → q ≢ upload_final server_root path
            → content v d' q ≡ content v d q)
  Outcome-Replaced rand path d cs bytes (c, rest, p) whole free plain =
      let o =
        put_file_lem
          (record {
            os = host;
            v = v;
            laws = laws;
            d₀ = d;
            temp = upload_temp server_root rand path;
          })
          server_root rand (part_of path c) (map (part_of path) rest) refl (free rand) plain in
      let body : received (map (part_of path) (c ∷ rest)) ≡ bytes =
        ap flatten (contents_of path (c ∷ rest)) ∙ (ap flatten (sym p) ∙ whole) in
      let d' = (afsfuse_put_file host server_root rand (map (part_of path) (c ∷ rest)) d).1 in
      rw p (
        elim o.atomic [
          | inl a ↦
              inl (subst (λ (b : Bytes). Delivered v (upload_final server_root path) b d') body a.1)
          | inr a ↦ inr a.1
        ],
        o.others,
      )

  -- When a round of `rpc_putFile` reads its whole file without an exception and its status is OK,
  -- no file has a temporary name of the upload, and the shell takes the name of its directory as
  -- it is, the final path on the server shows the client's file, but for an end that was lost
  -- when the server closed the stream that held it, or shows what it showed before, and every
  -- path but the final and one temporary one shows what it showed before.
  pub put_attempt_lem :
      (root path : Bytes) (s : S) (d : os.Disk) (r : Reader)
      → (construct os root path d).0 ≡ ret r
      → IsMapped r
      → ((n : ℕ) → v.node (server s) (upload_temp server_root n path) ≡ none)
      → is_plain (parent (upload_final server_root path)) ≡ true
      → (put_attempt os streams root path s d).0 ≡ (false, ok)
      → let d' = server (put_attempt os streams root path s d).1 in
        Replaced v (server s) d' (upload_final server_root path) (contents r)
        × (rand : ℕ) × ((q : Bytes)
            → q ≢ upload_temp server_root rand path
            → q ≢ upload_final server_root path
            → content v d' q ≡ content v (server s) q)
  put_attempt_lem root path s d r c m free plain e =
      let (rand, served) = put_attempt-delivers root path s d r c m e in
      let (final, others) =
        Outcome-Replaced rand path (server s) (pieces chunk_size (contents r)) (contents r)
          (pieces-some chunk_size (contents r))
          (pieces-flatten chunk_size (contents r) (omega arith)) free plain in
      rw served (final, rand, others)

module _ (os : Os) {S W : Type 0} (streams : Streams S W) where
  -- A file that cannot be read, on a connection that works.
  put_attempt-unread :
      (root path : Bytes) (s : S) (d : os.Disk)
      → ((e : os.Disk) → (n : ℕ) × ((construct os root path e).0 ≡ err n))
      → ((w : W) → (streams.close w).0 ≡ ok)
      → (put_attempt os streams root path s d).0 ≡ (true, ok)
  unfolding put_attempt
  put_attempt-unread root path s d h c =
      let (n, e) = h d in
      rw (stream_file-err os streams.send root path chunk_size (streams.start s) d n e, c) refl

  -- `rpc_putFile` of a file that the client cannot read, each round ending in the status OK, gives
  -- true.
  pub put_file_unread :
      (root path : Bytes) (s : S) (d : os.Disk)
      → ((e : os.Disk) → (n : ℕ) × ((construct os root path e).0 ≡ err n))
      → ((w : W) → (streams.close w).0 ≡ ok)
      → (rpc_put_file os streams root path s d).0 ≡ pos 1
  unfolding rpc_put_file
  put_file_unread root path s d h c =
      let (_, s₁, d₁) = put_attempt os streams root path s d in
      let (_, s₂, d₂) = put_attempt os streams root path s₁ d₁ in
      ground (
        arith,
        put_attempt-unread root path s d h c,
        put_attempt-unread root path s₁ d₁ h c,
        put_attempt-unread root path s₂ d₂ h c,
      )
