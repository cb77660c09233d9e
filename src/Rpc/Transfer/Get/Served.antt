-- ===== src/Rpc/Transfer/Get/Served.antt =====
-- A file that is fetched from the server: the server's handler, the stream, and `rpc_getFile`.
use client_server_file_syste.Base.{
  ℕ, ◌≡◌, refl, sym, ap, ◌∙◌, ◌≢◌, Bool, true, List, [], ◌∷◌, ◌++◌, Bytes, map, flatten,
}
use client_server_file_syste.Sys.{Os, Sys, ret, err}
use client_server_file_syste.Messages.{ok, FileContent}
use client_server_file_syste.Stream.Reader.{Reader, construct, contents}
use client_server_file_syste.Stream.Reader.Chunks.{IsMapped, send_each}
use client_server_file_syste.Stream.Reader.Send.{stream_file-err}
use client_server_file_syste.Stream.Reader.Sent.{message, send_each-sent}
use client_server_file_syste.Server.Download.{chunk_size, status_of, afsfuse_get_file}
use client_server_file_syste.Server.Download.Laws.{get_file_lem}
use client_server_file_syste.Server.Upload.Laws.{received}
use client_server_file_syste.Rpc.Transfer.{Streams}

-- A stream that takes everything.
abbrev pub collect : FileContent → List FileContent → Bool × List FileContent
collect m sent = (true, sent ++ (m ∷ []))

-- What grpc promises of a stream from the handler of a server: behind a status OK, the handler
-- has returned OK, and what the client has received is what the handler has written.
pub record IsDownload {S W : Type 0} (streams : Streams S W) (host : Os) (root : Bytes)
    (server : S → host.Disk) : Type 0 where
  pub fetch :
      (path : Bytes) (s : S) (parts : List FileContent)
      → (streams.fetch path s).0 ≡ (parts, ok)
      → ((afsfuse_get_file host collect root path [] (server s)).0 ≡ ok)
        × ((afsfuse_get_file host collect root path [] (server s)).1 ≡ parts)

-- Every file that the host opens is mapped whole.
abbrev pub MapsWhole : Os → Bytes → Type 0
MapsWhole host root =
    (path : Bytes) (d : host.Disk) (r : Reader)
    → (construct host root path d).0 ≡ ret r
    → IsMapped r

received-message :
    (r : Reader) (cs : List Bytes) → received (map (message collect r) cs) ≡ flatten cs
received-message r [] = refl
received-message r (c ∷ cs) = ap (◌++◌ c) (received-message r cs)

status_of_ok : (res : Sys (Unit {0})) → status_of res ≡ ok → res ≡ ret tt
status_of_ok (ret _) h = refl
status_of_ok (err n) h = absurd cc

module _ (host : Os) (root path : Bytes) (d : host.Disk) where
  -- A file that is not opened ends with another status.
  afsfuse_get_file-err :
      (n : ℕ)
      → (construct host root path d).0 ≡ err n
      → (afsfuse_get_file host collect root path [] d).0 ≢ ok
  unfolding afsfuse_get_file
  afsfuse_get_file-err n c e =
      absurd (cc (status_of_ok _ e, stream_file-err host collect root path chunk_size [] d n c))

  afsfuse_get_file-ret :
      (r : Reader)
      → (construct host root path d).0 ≡ ret r
      → IsMapped r
      → (afsfuse_get_file host collect root path [] d).0 ≡ ok
      → received (afsfuse_get_file host collect root path [] d).1 ≡ contents r
  afsfuse_get_file-ret r c m e =
      let (cs, whole, _, run) = get_file_lem host collect root path [] d r c m in
      let all = status_of_ok (send_each collect r cs []).0 (sym (ap (λ x. x.0) run) ∙ e) in
      let (sent, _) =
        send_each-sent collect r (λ sent. sent) (λ _. tt) (λ m sent e. (refl, refl)) cs [] all in
      ap (λ x. received x.1) run ∙ (ap received sent ∙ (received-message r cs ∙ whole))

-- The reader of the server's file, and its bytes behind a path of the client.
abbrev pub Served : (host : Os) → Bytes → Bytes → host.Disk → Bytes → Type 0
Served host root path d bytes =
    (r : Reader) × ((construct host root path d).0 ≡ ret r) × (contents r ≡ bytes)

module _ {S W : Type 0} (streams : Streams S W) (host : Os) (server_root : Bytes)
    (server : S → host.Disk) (down : IsDownload streams host server_root server)
    (maps : MapsWhole host server_root) where
  pub fetch-Served :
      (path : Bytes) (s : S) (parts : List FileContent)
      → (streams.fetch path s).0 ≡ (parts, ok)
      → Served host server_root path (server s) (received parts)
  fetch-Served path s parts e =
      let (ok', sent) = down.fetch path s parts e in
      go ok' sent (construct host server_root path (server s)).0 refl
    where
      go :
          (afsfuse_get_file host collect server_root path [] (server s)).0 ≡ ok
          → (afsfuse_get_file host collect server_root path [] (server s)).1 ≡ parts
          → (made : Sys Reader) → (construct host server_root path (server s)).0 ≡ made
          → Served host server_root path (server s) (received parts)
      go ok' sent (err n) c = absurd (afsfuse_get_file-err host server_root path (server s) n c ok')
      go ok' sent (ret r) c = (
        r,
        c,
        sym (
              afsfuse_get_file-ret host server_root path (server s) r c (maps path (server s) r c)
                ok')
            ∙ ap received sent,
      )
