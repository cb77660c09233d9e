-- ===== src/Tests/Writing.antt =====
-- A server that reads and writes at most two bytes at a time, over a link that loses replies.
use client_server_file_syste.Base.{
  ℕ, ◌≡◌, refl, inr, some, [], Bytes, text, take, drop, length, arith, take-min, length-take, subst,
  sym, ap, ◌∙◌,
}
use client_server_file_syste.Base.Int.{pos}
use client_server_file_syste.Sys.{Os, Sys, ret}
use client_server_file_syste.Sys.Laws.{View, Same}
use client_server_file_syste.Sys.Contents.{Same-refl}
use client_server_file_syste.Sys.Reading.{IsReading}
use client_server_file_syste.Sys.Writing.{write_at, Overwritten, IsWriting}
use client_server_file_syste.Sys.Memory.{Disk, memory, memory_calls, put, open_file}
use client_server_file_syste.Sys.Memory.Assoc.{lookup}
use client_server_file_syste.Messages.{deadline_exceeded}
use client_server_file_syste.Server.Paths.{server_path}
use client_server_file_syste.Server.Files.{afsfuse_read, afsfuse_write}
use client_server_file_syste.Rpc.Retry.{retry}
use client_server_file_syste.Rpc.Calls.{Stub, rpc_read, rpc_write}
use client_server_file_syste.Rpc.Calls.Written.{
  serve_write, write_request, Reported, rpc_write-Overwritten,
}
use client_server_file_syste.Rpc.Calls.Slice.{
  serve_read, read_request, ReadOutcome, rpc_read-ReadOutcome,
}
use client_server_file_syste.Rpc.Calls.Again.{Agrees, written_read}
use client_server_file_syste.Tests.Rpc.{disk, silence, link, link-IsRpc}

abbrev pwrite : Disk → ℕ → Bytes → ℕ → Sys ℕ × Disk
pwrite d i bytes off = (
  ret (length (take 2 bytes)),
  record d { files = put d.files i (write_at off (take 2 bytes) (d.files i)) },
)

abbrev host : Os
host = record memory {
  pread = λ d fd n off. ret (take 2 (take n (drop off (d.files fd))));
  pwrite = pwrite;
}

abbrev host_view : View host
host_view = record {
  node = λ d p. lookup p d.names;
  bytes_of = λ d i. d.files i;
  held = λ d h. d.buffers h;
  lost = λ d h. [];
  target = λ d h. h;
}

opened_same : (d : Disk) (p : Bytes) → (open_file d p 1 0).1 ≡ d
unfolding open_file
opened_same d p = ground arith

opened_named :
    (d : Disk) (p : Bytes) (fd : ℕ) → (open_file d p 1 0).0 ≡ ret fd → lookup p d.names ≡ some fd
unfolding open_file
opened_named d p fd e = ground arith

take-taken : (bytes : Bytes) → take (length (take 2 bytes)) bytes ≡ take 2 bytes
take-taken bytes = take-min 2 _ bytes (length-take 2 bytes)

pwrite-Overwritten :
    (d : Disk) (p : Bytes) (fd : ℕ) (bytes : Bytes) (off n : ℕ)
    → lookup p d.names ≡ some fd
    → (pwrite d fd bytes off).0 ≡ ret n
    → Overwritten host_view p off bytes n d (pwrite d fd bytes off).1
pwrite-Overwritten d p fd bytes off n named e =
    let count : n ≡ length (take 2 bytes) = cc (e) in
    let most = length-take 2 bytes in
    record {
      within = omega (arith, count, most);
      found = inr (fd, named);
      names = λ q. refl;
      target = λ i at. ground (arith, named, ap (λ k. take k bytes) count ∙ take-taken bytes);
      others = λ i at. ground arith;
    }

host-IsWriting : IsWriting host_view (λ d fd. fd)
host-IsWriting = record {
  open-ret = λ d p fd e. opened_named d p fd e;
  opened = λ d p. subst (Same host_view d) (sym (opened_same d p)) (Same-refl host_view d);
  pwrite-ret = λ d p fd bytes off n named e. pwrite-Overwritten d p fd bytes off n named e;
  pwrite-err = λ d fd bytes off e h. cc (h);
  fsync = λ d fd. Same-refl host_view d;
  close = λ d fd. Same-refl host_view d;
}

opened_for_reading : (d : Disk) (p : Bytes) → (open_file d p 0 0).1 ≡ d
unfolding open_file
opened_for_reading d p = ground arith

found_for_reading :
    (d : Disk) (p : Bytes) (fd : ℕ) → (open_file d p 0 0).0 ≡ ret fd → lookup p d.names ≡ some fd
unfolding open_file
found_for_reading d p fd e = ground arith

host-IsReading : IsReading host_view (λ d fd. fd)
host-IsReading = record {
  open-ret = λ d p fd e. found_for_reading d p fd e;
  opened = λ d p. subst (Same host_view d) (sym (opened_for_reading d p)) (Same-refl host_view d);
  pread-ret = λ d fd n off got h. (2, cc (h));
  close = λ d fd. Same-refl host_view d;
}

-- What stands behind the bytes that the server reads.
abbrev garbage : Bytes
garbage = text "??"

abbrev cut : Stub (Disk × ℕ)
cut = record {
  getattr = λ m. silence;
  readdir = λ path b s. ((deadline_exceeded, []), s);
  open_file = λ m. silence;
  read = λ m. link (serve_read host (text "/s") garbage m);
  write = λ m. link (serve_write host (text "/s") [] m);
  create = λ m. silence;
  mkdir = λ m. silence;
  rmdir = λ m. silence;
  unlink = λ m. silence;
  rename = λ m. silence;
  utimens = λ m. silence;
  mknod = λ m. silence;
}

-- "old" becomes "oxy", however often it is written; "!!" stands behind "xyz" in the client's
-- memory.
overwritten :
    let (res, (d, n)) = rpc_write cut (text "/f") (text "xyz!!") 3 1 (disk, 2) in
    (res ≡ pos 2) × (d.files 4 ≡ text "oxy")
unfolding rpc_write retry afsfuse_write memory_calls
overwritten = (refl, refl)

rpc_write-Overwritten_example :
    let (res, (d, n)) = rpc_write cut (text "/f") (text "xyz!!") 3 1 (disk, 2) in
    (n : ℕ) × Overwritten host_view (server_path (text "/s") (text "/f")) 1 (text "xyz") n disk d
    × Reported n res
rpc_write-Overwritten_example =
    rpc_write-Overwritten host host_view (λ d fd. fd) host-IsWriting (text "/s") [] cut (λ s. s.0)
      (text "/f") (text "xyz") (text "!!") 1 (disk, 2) (omega arith) refl (omega arith)
      (link-IsRpc
        (serve_write host (text "/s") [] (write_request (text "/f") (text "xyz") (text "!!") 1)))

-- Two bytes are counted, and two more stand in the buffer.
read_with_garbage : (rpc_read cut (text "/f") [] 3 1 (disk, 1)).0 ≡ (pos 2, text "ld??")
unfolding rpc_read retry afsfuse_read memory_calls
read_with_garbage = refl

rpc_read-ReadOutcome_example :
    let (res, s) = rpc_read cut (text "/f") [] 3 1 (disk, 1) in
    Same host_view disk s.0 × ReadOutcome host_view (text "/s") garbage (text "/f") [] 3 1 disk res
rpc_read-ReadOutcome_example =
    rpc_read-ReadOutcome host host_view (λ d fd. fd) host-IsReading (text "/s") garbage (text "/f")
      [] 3 1 (omega arith) cut (λ s. s.0) (disk, 1)
      (link-IsRpc (serve_read host (text "/s") garbage (read_request (text "/f") 3 1)))

-- "xy" is written, and "xy" is read again.
read_again :
    let (res, s) = rpc_write cut (text "/f") (text "xyz!!") 3 1 (disk, 2) in
    (rpc_read cut (text "/f") [] 3 1 s).0 ≡ (pos 2, text "xy??")
unfolding rpc_write rpc_read retry afsfuse_write afsfuse_read memory_calls
read_again = refl

written_read_example :
    let (res, s) = rpc_write cut (text "/f") (text "xyz!!") 3 1 (disk, 2) in
    let (out, s') = rpc_read cut (text "/f") [] 3 1 s in
    (n : ℕ) × Reported n res × Agrees n (text "xyz") [] garbage out
written_read_example =
    written_read host host_view (λ d fd. fd) host-IsWriting host-IsReading (text "/s") garbage []
      cut (λ s. s.0) (text "/f") (text "xyz") (text "!!") [] 3 1 (disk, 2) (omega arith)
      (omega arith) refl (omega arith)
      (link-IsRpc
        (serve_write host (text "/s") [] (write_request (text "/f") (text "xyz") (text "!!") 1)))
      (link-IsRpc (serve_read host (text "/s") garbage (read_request (text "/f") 3 1)))
