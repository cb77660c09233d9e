-- ===== src/Start/Arguments/Position.antt =====
-- Where the client looks for its options: at the last two arguments, in this order.
use client_server_file_syste.Base.{
  ℕ, zero, suc, ◌+◌, ◌-◌, ◌<◌, ◌^◌, ◌≡◌, refl, sym, ap, ◌∙◌, true, false, some, List, [], ◌∷◌, ◌++◌,
  Bytes, starts_with, get_or, length, take, to_string, ltb, arith, length-append, take-append,
  take_all, append_assoc,
}
use client_server_file_syste.Base.Int.{pos}
use client_server_file_syste.Base.Number.{stoi-to_string}
use client_server_file_syste.Start.Arguments.{
  Options, defaults, server_option, crash_option, from_end, take_server, take_crash, read_options,
  left_args,
}

get_or-append :
    (xs ys : List Bytes) (d : Bytes) (n k : ℕ)
    → n ≡ length xs + k
    → get_or (xs ++ ys) n d ≡ get_or ys k d
get_or-append [] ys d n k e = ap (λ (i : ℕ). get_or ys i d) (omega arith)
get_or-append (x ∷ xs) ys d zero k e = absurd (omega arith)
get_or-append (x ∷ xs) ys d (suc n) k e = get_or-append xs ys d n k (omega arith)

take-append_last :
    (xs : List Bytes) (x : Bytes) → take (length (xs ++ (x ∷ [])) - 1) (xs ++ (x ∷ [])) ≡ xs
take-append_last xs x =
    ap (λ (k : ℕ). take k (xs ++ (x ∷ []))) (omega (arith, length-append xs (x ∷ [])))
    ∙ take-append xs (x ∷ [])

module _ (front : List Bytes) (a b : Bytes) where
  abbrev argv : List Bytes
  argv = front ++ (a ∷ b ∷ [])

  length-argv : length argv ≡ length front + 2
  length-argv = length-append front (a ∷ b ∷ [])

  last-argv : from_end 1 argv ≡ b
  last-argv = get_or-append front (a ∷ b ∷ []) [] _ 1 (omega (arith, length-argv))

  last_but_one-argv : from_end 2 argv ≡ a
  last_but_one-argv = get_or-append front (a ∷ b ∷ []) [] _ 0 (omega (arith, length-argv))

  read_options-argv : 0 < length front → read_options argv ≡ take_crash b (take_server a defaults)
  unfolding read_options
  read_options-argv h =
      let two : ltb 2 (length argv) ≡ true = ground (arith, length-argv, h) in
      rw (two, last-argv, last_but_one-argv) refl

take_server-found :
    (server : Bytes) (o : Options)
    → take_server (server_option ++ server) o
      ≡ record o { server_passed = true; server_address = server }
unfolding take_server
take_server-found server o = refl

take_crash-found :
    (n : ℕ) (o : Options)
    → n < 2 ^ 31
    → take_crash (crash_option ++ to_string n) o
      ≡ some (record o { crash_passed = true; crash_site = pos n })
unfolding take_crash
take_crash-found n o h = rw (stoi-to_string n h) refl

take_server-other :
    (x : Bytes) (o : Options) → starts_with server_option x ≡ false → take_server x o ≡ o
unfolding take_server
take_server-other x o h = rw h refl

take_crash-other :
    (x : Bytes) (o : Options) → starts_with crash_option x ≡ false → take_crash x o ≡ some o
unfolding take_crash
take_crash-other x o h = rw h refl

-- With `--server=` and `--crash=` as the last two arguments, in this order and behind at least
-- one other, the client takes the address and the number from them, and hands the others to fuse.
-- The number is one that an `int` holds, in decimal.
pub both_taken :
    (front : List Bytes) (server : Bytes) (n : ℕ)
    → 0 < length front
    → n < 2 ^ 31
    → let argv = front ++ ((server_option ++ server) ∷ (crash_option ++ to_string n) ∷ []) in
      let o : Options = record {
        server_passed = true;
        crash_passed = true;
        server_address = server;
        crash_site = pos n;
      } in
      (read_options argv ≡ some o) × (left_args o argv ≡ front)
unfolding left_args
both_taken front server n h small =
    let a = server_option ++ server in
    let b = crash_option ++ to_string n in
    let l = length-argv front a b in
    (
      read_options-argv front a b h
          ∙ (ap (take_crash b) (take_server-found server defaults) ∙ take_crash-found n _ small),
      ap (λ (k : ℕ). take k (front ++ (a ∷ b ∷ []))) (omega (arith, l))
          ∙ take-append front (a ∷ b ∷ []),
    )

-- With `--server=` as the last of three or more arguments, which the one before it does not begin
-- with too, the client stays with its default address, and hands all of its arguments to fuse.
pub last_server_ignored :
    (front : List Bytes) (x server : Bytes)
    → 0 < length front
    → starts_with server_option x ≡ false
    → let argv = front ++ (x ∷ (server_option ++ server) ∷ []) in
      (read_options argv ≡ some defaults) × (left_args defaults argv ≡ argv)
unfolding left_args
last_server_ignored front x server h other =
    let b = server_option ++ server in
    (
      read_options-argv front x b h
          ∙ (ap (take_crash b) (take_server-other x defaults other)
              ∙ take_crash-other b defaults refl),
      take_all _ (front ++ (x ∷ b ∷ [])) (omega arith),
    )

-- With `--server=` as the last argument but one, behind at least one other and before one that
-- does not begin with `--crash=`, the client takes the address, but what it keeps from fuse is the
-- last argument: fuse is given `--server=`.
pub wrong_argument_dropped :
    (front : List Bytes) (server x : Bytes)
    → 0 < length front
    → starts_with crash_option x ≡ false
    → let argv = front ++ ((server_option ++ server) ∷ x ∷ []) in
      let o : Options = record defaults { server_passed = true; server_address = server } in
      (read_options argv ≡ some o) × (left_args o argv ≡ front ++ ((server_option ++ server) ∷ []))
unfolding left_args
wrong_argument_dropped front server x h other =
    let a = server_option ++ server in
    (
      read_options-argv front a x h
          ∙ (ap (take_crash x) (take_server-found server defaults) ∙ take_crash-other x _ other),
      ap (left_args (record defaults { server_passed = true; server_address = server }))
            (sym (append_assoc front (a ∷ []) (x ∷ [])))
          ∙ take-append_last (front ++ (a ∷ [])) x,
    )
