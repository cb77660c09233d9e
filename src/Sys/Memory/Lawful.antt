-- ===== src/Sys/Memory/Lawful.antt =====
-- The disk in memory meets the laws.
use client_server_file_syste.Base.{
  ℕ, ◌≡◌, ◌≢◌, refl, inl, inr, true, false, Bytes, bytes_eq, bytes_eq_iff, arith, append_assoc,
  append-nil, sym, [], Option-cases,
}
use client_server_file_syste.Sys.{ret}
use client_server_file_syste.Sys.Laws.{View, IsStore, Opened, Written, Closed, Renamed, Removed}
use client_server_file_syste.Sys.Memory.{
  Disk, memory, rename, system, out_open, out_write, out_close, remove,
}
use client_server_file_syste.Sys.Memory.Assoc.{lookup, lookup-erase, lookup-fresh}

abbrev pub memory_view : View memory
memory_view = record {
  node = λ d p. lookup p d.names;
  bytes_of = λ d i. d.files i;
  held = λ d h. d.buffers h;
  lost = λ d h. [];
  target = λ d h. h;
}

bytes_eq_refl : (p : Bytes) → bytes_eq p p ≡ true
bytes_eq_refl p = (bytes_eq_iff p p).1 refl

bytes_eq_of_ne : (p q : Bytes) → p ≢ q → bytes_eq p q ≡ false
bytes_eq_of_ne p q ne = ground (arith, bytes_eq_iff p q)

opened :
    (d : Disk) (p : Bytes) (h : ℕ) (d' : Disk)
    → out_open d p ≡ (ret h, d')
    → Opened memory_view d p h d'
unfolding out_open lookup
opened d p h d' e = elim (Option-cases (lookup p d.names)) [
  | inl free ↦ record {
    named = ground (arith, bytes_eq_refl p);
    empty = ground arith;
    nothing_held = ground arith;
    other_names = λ q ne. ground (arith, bytes_eq_of_ne q p ne);
    other_bytes = λ i ne. ground arith;
    fresh = λ q n u. ground (arith, lookup-fresh q d.names h u);
  }
  | inr (i, there) ↦ record {
    named = ground arith;
    empty = ground arith;
    nothing_held = ground arith;
    other_names = λ q ne. ground arith;
    other_bytes = λ j ne. ground arith;
    fresh = λ q n u. ground arith;
  }
]

written :
    (d : Disk) (h : ℕ) (bytes : Bytes) (d' : Disk)
    → out_write d h bytes ≡ (ret tt, d')
    → Written memory_view d h bytes d'
unfolding out_write
written d h bytes d' e = record {
  names = λ q. ground arith;
  targets = λ k. refl;
  taken = ground (arith, append_assoc (d.files h) (d.buffers h) bytes);
  other_bytes = λ i ne. ground arith;
}

closed : (d : Disk) (h : ℕ) → Closed memory_view d h (out_close d h)
unfolding out_close
closed d h = record {
  names = λ q. refl;
  kept = d.buffers h;
  buffer = sym (append-nil (d.buffers h));
  flushed = ground arith;
  other_bytes = λ i ne. ground arith;
}

removed : (d : Disk) (p : Bytes) → Removed memory_view d p (remove d p)
unfolding remove
removed d p = record {
  other_names = λ q ne. ground (arith, lookup-erase p q d.names, bytes_eq_of_ne q p ne);
  bytes = λ i. refl;
}

renamed :
    (d : Disk) (from to : Bytes) (d' : Disk)
    → rename d from to ≡ (ret tt, d')
    → Renamed memory_view d from to d'
unfolding rename lookup
renamed d from to d' e = record {
  moved = ground (arith, bytes_eq_refl to);
  gone = λ ne.
      ground (arith, bytes_eq_of_ne from to ne, lookup-erase from from d.names, bytes_eq_refl from);
  other_names = λ q nf nt.
      ground (arith, bytes_eq_of_ne q to nt, bytes_eq_of_ne q from nf, lookup-erase from q d.names);
  bytes = λ i. ground arith;
  helds = λ k. ground arith;
  targets = λ k. refl;
}

pub memory-IsStore : IsStore memory memory_view
unfolding rename system out_open out_write
memory-IsStore = record {
  out_open-ret = opened;
  out_open-err = λ d p e d' eq. absurd (ground arith);
  out_write-ret = written;
  out_write-err = λ d h bytes e d' eq. absurd (ground arith);
  remove = removed;
  out_close = closed;
  rename-ret = renamed;
  rename-err = λ d from to e d' eq. record {
    names = λ q. ground arith;
    bytes = λ i. ground arith;
    helds = λ h. ground arith;
    targets = λ h. refl;
  };
  rename-errno = λ d from to e d' eq. ground arith;
  make_dirs = λ d path plain. record {
    names = λ q. refl;
    bytes = λ i. refl;
    helds = λ h. refl;
    targets = λ h. refl;
  };
  system-errno = λ d command e d' eq. ground arith;
}
