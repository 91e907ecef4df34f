-- ===== src/Token/Mint.antt =====
-- internal/token/mint.go: the address and the metadata in the data of a mint output.
use klingnet.Prelude.{
  ℕ, ◌+◌, ◌≤◌, ◌≡◌, refl, ap, ◌∙◌, Bool, List, [], ◌∷◌, ◌++◌, Option, none, some, length, take,
  drop, length-append, take-append, take-all, drop-append, ltb, leb, ◌==◌, if◌then◌else◌, if-holds,
  arith, nat_eq,
}
use klingnet.Prelude.Assoc.{Assoc, lookup, insert, is_some}
use klingnet.Types.{Hash, address_size, Script, script_type_mint, TokenData}
use klingnet.Tx.{Output, Transaction}

-- Metadata, with the recipient's address as the creator; a string is its bytes
pub record MintData : Type 0 where
  pub addr : List ℕ
  pub name : List ℕ
  pub symbol : List ℕ
  pub decimals : ℕ

-- EncodeMintData
unfoldable pub encode_mint_data : List ℕ → List ℕ → List ℕ → ℕ → List ℕ
encode_mint_data addr name symbol decimals =
    let name_bytes = take 255 name in
    let symbol_bytes = take 255 symbol in
    addr ++ (decimals ∷ length name_bytes ∷ name_bytes ++ (length symbol_bytes ∷ symbol_bytes))

abbrev only_address : List ℕ → MintData
only_address addr = record { addr = addr; name = []; symbol = []; decimals = 0 }

-- from the symbol's length on
unfoldable pub decode_symbol : List ℕ → List ℕ → ℕ → List ℕ → MintData
decode_symbol addr name decimals [] = record {
  addr = addr;
  name = name;
  symbol = [];
  decimals = decimals;
}
decode_symbol addr name decimals (symbol_len ∷ rest) =
    if ltb (length rest) symbol_len
    then record { addr = addr; name = name; symbol = []; decimals = decimals }
    else record { addr = addr; name = name; symbol = take symbol_len rest; decimals = decimals }

-- from the name's length on
unfoldable pub decode_name : List ℕ → ℕ → List ℕ → MintData
decode_name addr decimals [] = record { addr = addr; name = []; symbol = []; decimals = decimals }
decode_name addr decimals (name_len ∷ rest) =
    if ltb (length rest) name_len
    then record { addr = addr; name = []; symbol = []; decimals = decimals }
    else decode_symbol addr (take name_len rest) decimals (drop name_len rest)

unfoldable pub decode_metadata : List ℕ → List ℕ → MintData
decode_metadata addr [] = only_address addr
decode_metadata addr (decimals ∷ rest) = decode_name addr decimals rest

-- DecodeMintData; `none` is `ok == false`. Data with fewer than three bytes after the address have
-- no metadata.
unfoldable pub decode_mint_data : List ℕ → Option MintData
decode_mint_data bytes =
    if ltb (length bytes) address_size
    then none
    else if ltb (length bytes) (address_size + 3)
    then some (only_address (take address_size bytes))
    else some (decode_metadata (take address_size bytes) (drop address_size bytes))

unfoldable pub is_named : MintData → Bool
is_named d = ltb 0 (length d.name + length d.symbol)

unfoldable pub put_metadata : Hash → Option MintData → Assoc Hash MintData → Assoc Hash MintData
put_metadata id none store = store
put_metadata id (some d) store = if is_named d then insert id d store else store

-- the body of the loop over the outputs, at an output's token
unfoldable pub store_token : Script → Option TokenData → Assoc Hash MintData → Assoc Hash MintData
store_token script none store = store
store_token script (some t) store =
    if leb (length script.bytes) address_size
    then store
    else if is_some (lookup t.id store)
    then store
    else put_metadata t.id (decode_mint_data script.bytes) store

unfoldable pub store_outputs : List Output → Assoc Hash MintData → Assoc Hash MintData
store_outputs [] store = store
store_outputs (o ∷ os) store =
    store_outputs os
      (if o.script.type == script_type_mint then store_token o.script o.token store else store)

-- ExtractAndStoreMetadata
unfoldable pub extract_and_store_metadata :
    List Transaction → Assoc Hash MintData → Assoc Hash MintData
extract_and_store_metadata [] store = store
extract_and_store_metadata (t ∷ ts) store =
    extract_and_store_metadata ts (store_outputs t.outputs store)

decode_symbol-encoded :
    (addr name : List ℕ) (decimals : ℕ) (symbol : List ℕ)
    → decode_symbol addr name decimals (length symbol ∷ symbol)
      ≡ record { addr = addr; name = name; symbol = symbol; decimals = decimals }
unfolding decode_symbol
decode_symbol-encoded addr name decimals symbol =
    if-holds (λ d. d ≡ record { addr = addr; name = name; symbol = symbol; decimals = decimals })
      (ltb (length symbol) (length symbol)) _ _ (λ less. absurd (ground (arith, less)))
      (λ fits.
        ap (λ z. record { addr = addr; name = name; symbol = z; decimals = decimals })
          (take-all symbol (length symbol) refl))

decode_name-encoded :
    (addr : List ℕ) (decimals : ℕ) (name rest : List ℕ)
    → decode_name addr decimals (length name ∷ name ++ rest) ≡ decode_symbol addr name decimals rest
unfolding decode_name
decode_name-encoded addr decimals name rest =
    if-holds (λ d. d ≡ decode_symbol addr name decimals rest)
      (ltb (length (name ++ rest)) (length name)) _ _
      (λ less. absurd (ground (arith, less, length-append name rest)))
      (λ fits.
        ap (λ z. decode_symbol addr z decimals (drop (length name) (name ++ rest)))
          (take-append name rest (length name) refl)
        ∙ ap (decode_symbol addr name decimals) (drop-append name rest (length name) refl))

decode_mint_data-append :
    (addr rest : List ℕ)
    → length addr ≡ address_size
    → 3 ≤ length rest
    → decode_mint_data (addr ++ rest) ≡ some (decode_metadata addr rest)
unfolding decode_mint_data
decode_mint_data-append addr rest width long =
    let total = length-append addr rest in
    if-holds (λ d. d ≡ some (decode_metadata addr rest)) (ltb (length (addr ++ rest)) address_size)
      _ _ (λ less. absurd (ground (arith, less, total, width)))
      (λ enough.
        if-holds (λ d. d ≡ some (decode_metadata addr rest))
          (ltb (length (addr ++ rest)) (address_size + 3)) _ _
          (λ less. absurd (ground (arith, less, total, width, long)))
          (λ all.
            ap (λ z. some (decode_metadata z (drop address_size (addr ++ rest))))
              (take-append addr rest address_size width)
            ∙ ap (λ z. some (decode_metadata addr z)) (drop-append addr rest address_size width)))

decode-parts :
    (addr name symbol : List ℕ) (decimals : ℕ)
    → length addr ≡ address_size
    → decode_mint_data (addr ++ (decimals ∷ length name ∷ name ++ (length symbol ∷ symbol)))
      ≡ some (record { addr = addr; name = name; symbol = symbol; decimals = decimals })
unfolding decode_metadata
decode-parts addr name symbol decimals width =
    let rest = decimals ∷ length name ∷ name ++ (length symbol ∷ symbol) in
    decode_mint_data-append addr rest width
      (omega (arith, length-append name (length symbol ∷ symbol)))
    ∙ ap some (decode_name-encoded addr decimals name (length symbol ∷ symbol))
    ∙ ap some (decode_symbol-encoded addr name decimals symbol)

-- Let an address have 20 bytes. Decoding the data that are encoded for it, a name, a symbol and a
-- number of decimals gives them back, the name and the symbol cut to their first 255 bytes.
pub decode-encode_mint_data :
    (addr name symbol : List ℕ) (decimals : ℕ)
    → length addr ≡ address_size
    → decode_mint_data (encode_mint_data addr name symbol decimals)
      ≡ some (record {
        addr = addr;
        name = take 255 name;
        symbol = take 255 symbol;
        decimals = decimals;
      })
unfolding encode_mint_data
decode-encode_mint_data addr name symbol decimals width =
    decode-parts addr (take 255 name) (take 255 symbol) decimals width
