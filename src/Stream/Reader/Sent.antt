-- ===== src/Stream/Reader/Sent.antt =====
-- What a stream has taken when a file has been read without an exception.
use client_server_file_syste.Base.{
  ◌≡◌, refl, sym, ap, ◌∙◌, Bool, true, map, append-nil, append_assoc, List, [], ◌∷◌, ◌++◌, Bytes,
  arith,
}
use client_server_file_syste.Sys.{ret}
use client_server_file_syste.Messages.{FileContent}
use client_server_file_syste.Stream.Reader.{Reader, on_chunk_available}
use client_server_file_syste.Stream.Reader.Chunks.{send_each, send_each_nil, send_each_cons}

module _ {W : Type 0} (write : FileContent → W → Bool × W) (r : Reader) where
  abbrev pub message : Bytes → FileContent
  message c = record { name = r.file_path; content = c }

  on_chunk_available-sent :
      (c : Bytes) (w : W)
      → (on_chunk_available write r c w).0 ≡ ret tt
      → ((write (message c) w).0 ≡ true)
        × ((on_chunk_available write r c w).1 ≡ (write (message c) w).1)
  unfolding on_chunk_available
  on_chunk_available-sent c w e = ground arith

  send_each_more :
      (c : Bytes) (cs : List Bytes) (w : W)
      → (send_each write r (c ∷ cs) w).0 ≡ ret tt
      → ((on_chunk_available write r c w).0 ≡ ret tt)
        × (send_each write r (c ∷ cs) w ≡ send_each write r cs (on_chunk_available write r c w).1)
  send_each_more c cs w e = ground (arith, send_each_cons write r c cs w, e)

  -- When all of the messages are taken, they stand in order behind what was sent before.
  pub send_each-sent :
      {M : Type 0} (sent : W → List FileContent) (kept : W → M)
      → ((m : FileContent) (w : W)
          → (write m w).0 ≡ true
          → (sent (write m w).1 ≡ sent w ++ (m ∷ [])) × (kept (write m w).1 ≡ kept w))
      → (cs : List Bytes) (w : W) → (send_each write r cs w).0 ≡ ret tt
      → (sent (send_each write r cs w).1 ≡ sent w ++ map message cs)
        × (kept (send_each write r cs w).1 ≡ kept w)
  send_each-sent sent kept takes [] w e = rw send_each_nil (sym (append-nil (sent w)), refl)
  send_each-sent sent kept takes (c ∷ cs) w e =
      let (now, rest) = send_each_more c cs w e in
      let (took, to) = on_chunk_available-sent c w now in
      let (in_order, k) = takes (message c) w took in
      let (more, k') =
        send_each-sent sent kept takes cs (on_chunk_available write r c w).1
          (sym (ap (λ x. x.0) rest) ∙ e) in
      (
        ap (λ x. sent x.1) rest
            ∙ (more
                ∙ (ap (λ x. sent x ++ map message cs) to
                    ∙ (ap (◌++ map message cs) in_order
                        ∙ append_assoc (sent w) (message c ∷ []) (map message cs)))),
        ap (λ x. kept x.1) rest ∙ (k' ∙ (ap kept to ∙ k)),
      )
