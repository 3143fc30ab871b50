-- ===== src/Router/Configuration.antt =====
-- Reading the configuration file at the start of `main`, from the numbers that `file >> num` gives.
-- They are taken to be non-negative.
use communication_network.Base.{
  ℕ, ◌+◌, ◌*◌, ◌≤◌, ◌<◌, ◌≡◌, refl, sym, ap, ◌∙◌, List, [], ◌∷◌, ◌++◌, ◌&&◌, length, ltb, leb, ◌==◌,
  if◌then◌else◌, arith,
}
use mathlib.Core.List.{append_assoc, append-nil}

pub record Configuration : Type 0 where
  pub router_id : ℕ
  pub num_interfaces : ℕ
  pub rx_addressess : List ℕ
  pub tx_addressess : List ℕ
  pub tx_remote_addressess : List ℕ

-- The body of the loop on the number at a position.
unfoldable pub read_number : ℕ → ℕ → Configuration → Configuration
read_number index num c =
    if index == 0
    then record c { router_id = num }
    else (if index == 1
        then record c { num_interfaces = num }
        else (if leb 2 index && ltb index (2 + c.num_interfaces)
            then record c { rx_addressess = c.rx_addressess ++ num ∷ [] }
            else (if leb (2 + c.num_interfaces) index && ltb index (2 + 2 * c.num_interfaces)
                then record c { tx_addressess = c.tx_addressess ++ num ∷ [] }
                else (if leb (2 + 2 * c.num_interfaces) index
                      && ltb index (2 + 3 * c.num_interfaces)
                    then record c { tx_remote_addressess = c.tx_remote_addressess ++ num ∷ [] }
                    else c))))

unfoldable pub read_numbers : ℕ → List ℕ → Configuration → Configuration
unfolding read_number
read_numbers index [] c = c
read_numbers index (num ∷ nums) c = read_numbers (index + 1) nums (read_number index num c)

-- The three blocks of addresses, and what stands behind them.
module _ (index : ℕ) (c : Configuration) where
  read_rx :
      (num : ℕ)
      → 2 ≤ index
      → index < 2 + c.num_interfaces
      → read_number index num c ≡ record c { rx_addressess = c.rx_addressess ++ num ∷ [] }
  unfolding read_number
  read_rx num low high = ground arith

  read_tx :
      (num : ℕ)
      → 2 + c.num_interfaces ≤ index
      → index < 2 + 2 * c.num_interfaces
      → read_number index num c ≡ record c { tx_addressess = c.tx_addressess ++ num ∷ [] }
  unfolding read_number
  read_tx num low high = ground arith

  read_remote :
      (num : ℕ)
      → 2 + 2 * c.num_interfaces ≤ index
      → index < 2 + 3 * c.num_interfaces
      → read_number index num c
        ≡ record c { tx_remote_addressess = c.tx_remote_addressess ++ num ∷ [] }
  unfolding read_number
  read_remote num low high = ground arith

  read_rest : (num : ℕ) → 2 ≤ index → 2 + 3 * c.num_interfaces ≤ index → read_number index num c ≡ c
  unfolding read_number
  read_rest num low high = ground arith

module _ (add : ℕ → Configuration → Configuration) where
  add_all : List ℕ → Configuration → Configuration
  add_all [] c = c
  add_all (x ∷ xs) c = add_all xs (add x c)

  -- A block of numbers that are all added in the same way.
  read_block :
      (n low high : ℕ)
      → ((index num : ℕ) (c : Configuration)
          → c.num_interfaces ≡ n
          → low ≤ index
          → index < high
          → read_number index num c ≡ add num c)
      → ((num : ℕ) (c : Configuration) → (add num c).num_interfaces ≡ c.num_interfaces)
      → (xs rest : List ℕ) (index : ℕ) (c : Configuration) → c.num_interfaces ≡ n
      → low ≤ index
      → index + length xs ≤ high
      → read_numbers index (xs ++ rest) c ≡ read_numbers (index + length xs) rest (add_all xs c)
  unfolding read_numbers add_all
  read_block n low high step keeps [] rest index c e l h =
      let same : index ≡ index + 0 = omega arith in ap (λ (k : ℕ). read_numbers k rest c) same
  read_block n low high step keeps (x ∷ xs) rest index c e l h =
      let next : index + 1 + length xs ≡ index + length (x ∷ xs) = omega arith in
      ap (read_numbers (index + 1) (xs ++ rest)) (step index x c e l (omega arith))
      ∙ read_block n low high step keeps xs rest (index + 1) (add x c) (keeps x c ∙ e) (omega arith)
          (omega arith)
      ∙ ap (λ (k : ℕ). read_numbers k rest (add_all xs (add x c))) next

abbrev add_rx : ℕ → Configuration → Configuration
add_rx num c = record c { rx_addressess = c.rx_addressess ++ num ∷ [] }

abbrev add_tx : ℕ → Configuration → Configuration
add_tx num c = record c { tx_addressess = c.tx_addressess ++ num ∷ [] }

abbrev add_remote : ℕ → Configuration → Configuration
add_remote num c = record c { tx_remote_addressess = c.tx_remote_addressess ++ num ∷ [] }

add_all-rx :
    (xs : List ℕ) (c : Configuration)
    → add_all add_rx xs c ≡ record c { rx_addressess = c.rx_addressess ++ xs }
unfolding add_all
add_all-rx [] c = ap (λ (l : List ℕ). record c { rx_addressess = l }) (sym (append-nil _))
add_all-rx (x ∷ xs) c =
    add_all-rx xs (record c { rx_addressess = c.rx_addressess ++ x ∷ [] })
    ∙ ap (λ (l : List ℕ). record c { rx_addressess = l }) (append_assoc c.rx_addressess (x ∷ []) xs)

add_all-tx :
    (xs : List ℕ) (c : Configuration)
    → add_all add_tx xs c ≡ record c { tx_addressess = c.tx_addressess ++ xs }
unfolding add_all
add_all-tx [] c = ap (λ (l : List ℕ). record c { tx_addressess = l }) (sym (append-nil _))
add_all-tx (x ∷ xs) c =
    add_all-tx xs (record c { tx_addressess = c.tx_addressess ++ x ∷ [] })
    ∙ ap (λ (l : List ℕ). record c { tx_addressess = l }) (append_assoc c.tx_addressess (x ∷ []) xs)

add_all-remote :
    (xs : List ℕ) (c : Configuration)
    → add_all add_remote xs c ≡ record c { tx_remote_addressess = c.tx_remote_addressess ++ xs }
unfolding add_all
add_all-remote [] c =
    ap (λ (l : List ℕ). record c { tx_remote_addressess = l }) (sym (append-nil _))
add_all-remote (x ∷ xs) c =
    add_all-remote xs (record c { tx_remote_addressess = c.tx_remote_addressess ++ x ∷ [] })
    ∙ ap (λ (l : List ℕ). record c { tx_remote_addressess = l })
        (append_assoc c.tx_remote_addressess (x ∷ []) xs)

read_all_rest :
    (rest : List ℕ) (index : ℕ) (c : Configuration)
    → 2 + 3 * c.num_interfaces ≤ index
    → read_numbers index rest c ≡ c
unfolding read_numbers
read_all_rest [] index c far = refl
read_all_rest (x ∷ xs) index c far =
    ap (read_numbers (index + 1) xs) (read_rest index c x (omega arith) far)
    ∙ read_all_rest xs (index + 1) c (omega arith)

abbrev pub configured : ℕ → ℕ → List ℕ → List ℕ → List ℕ → Configuration
configured id n rx tx remote = record {
  router_id = id;
  num_interfaces = n;
  rx_addressess = rx;
  tx_addressess = tx;
  tx_remote_addressess = remote;
}

read_head :
    (id n old_id old_n : ℕ) (nums : List ℕ)
    → read_numbers 0 (id ∷ n ∷ nums) (configured old_id old_n [] [] [])
      ≡ read_numbers 2 nums (configured id n [] [] [])
unfolding read_numbers read_number
read_head id n old_id old_n nums = refl

-- A file with the router's number, the number `n` of its interfaces, `n` receiving ports, `n` sending
-- ports and `n` remote ports, and anything behind them, gives exactly these, whatever the two
-- numbers were before (the code does not initialise them).
pub read_numbers_lem :
    (id n old_id old_n : ℕ) (rx tx remote rest : List ℕ)
    → length rx ≡ n
    → length tx ≡ n
    → length remote ≡ n
    → read_numbers 0 (id ∷ n ∷ rx ++ (tx ++ (remote ++ rest))) (configured old_id old_n [] [] [])
      ≡ configured id n rx tx remote
read_numbers_lem id n old_id old_n rx tx remote rest lrx ltx lremote =
    let tail = tx ++ (remote ++ rest) in
    let i = 2 + length rx in
    let j = i + length tx in
    let k = j + length remote in
    read_head id n old_id old_n (rx ++ tail)
    ∙ read_block add_rx n 2 (2 + n) (λ m x c e l h. read_rx m c x l (omega (arith, e, h)))
        (λ x c. refl) rx tail 2 (configured id n [] [] []) refl (omega arith) (omega (arith, lrx))
    ∙ ap (read_numbers i tail) (add_all-rx rx (configured id n [] [] []))
    ∙ read_block add_tx n (2 + n) (2 + 2 * n)
        (λ m x c e l h. read_tx m c x (omega (arith, e, l)) (omega (arith, e, h))) (λ x c. refl) tx
        (remote ++ rest) i (configured id n rx [] []) refl (omega (arith, lrx))
        (omega (arith, lrx, ltx))
    ∙ ap (read_numbers j (remote ++ rest)) (add_all-tx tx (configured id n rx [] []))
    ∙ read_block add_remote n (2 + 2 * n) (2 + 3 * n)
        (λ m x c e l h. read_remote m c x (omega (arith, e, l)) (omega (arith, e, h))) (λ x c. refl)
        remote rest j (configured id n rx tx []) refl (omega (arith, lrx, ltx))
        (omega (arith, lrx, ltx, lremote))
    ∙ ap (read_numbers k rest) (add_all-remote remote (configured id n rx tx []))
    ∙ read_all_rest rest k (configured id n rx tx remote) (omega (arith, lrx, ltx, lremote))
