-- ===== src/Bls/Aggregate.antt =====
-- What a certificate relies on of herumi's library: keys, signatures of one text and secret keys add up
-- alike. With it the sum of the signatures of some nodes of a shard passes VerifyAggregateSig of
-- Mitosis/bls/bls.go against the bitmap that lists these nodes.
use mitosis.Prelude.{
  ℕ, suc, ◌+◌, ◌<◌, ◌≡◌, ap, sym, ◌∙◌, ◌≢◌, true, List, [], ◌∷◌, some, Between, u32, ltb,
  Bool-cases, inl, inr,
}
use mitosis.Prelude.Ascending.{insert_sorted, Between-le}
use mitosis.Prelude.Assoc.{lookup}
use mitosis.Types.Bitmap.{Bitmap, get_element}
use mitosis.Bls.{
  Herumi, PubKeyDb, PubKeyStore, sum_keys, db_aggregate, get_aggregate_pub_key,
  verify_aggregate_sig,
}

-- Secret keys are numbers modulo the order of the curve. A key that is the neutral element of the sum
-- is not one that a signature verifies with.
pub record BlsLaws (B : Herumi) : Type 0 where
  pub add_secret : B.SecretKey → B.SecretKey → B.SecretKey
  pub no_secret : B.SecretKey
  pub add_secret_comm : (s t : B.SecretKey) → add_secret s t ≡ add_secret t s
  pub add_secret_assoc :
      (s t u : B.SecretKey) → add_secret (add_secret s t) u ≡ add_secret s (add_secret t u)
  pub none-add : (s : B.SecretKey) → add_secret no_secret s ≡ s
  pub public-none : B.get_public_key no_secret ≡ B.no_key
  pub public-add :
      (s t : B.SecretKey)
      → B.get_public_key (add_secret s t) ≡ B.add_key (B.get_public_key s) (B.get_public_key t)
  pub sign-add :
      (s t : B.SecretKey) (msg : List ℕ)
      → B.sign_byte (add_secret s t) msg ≡ B.add (B.sign_byte s msg) (B.sign_byte t msg)
  pub verify-sign :
      (s : B.SecretKey) (msg : List ℕ)
      → B.get_public_key s ≢ B.no_key
      → B.verify_byte (B.sign_byte s msg) (some (B.get_public_key s)) msg ≡ true
  pub deserialize-serialize : (s : B.Sign) → B.deserialize (B.serialize s) ≡ s

module _ {B : Herumi} (L : BlsLaws B) (secret : ℕ → B.SecretKey) where
  open L use {
    add_secret, no_secret, add_secret_comm, add_secret_assoc, none-add, public-none, public-add,
  }

  -- The sum of the secret keys of some nodes.
  unfoldable pub total : List ℕ → B.SecretKey
  total [] = no_secret
  total (k ∷ ks) = add_secret (secret k) (total ks)

  pub total_one : (k : ℕ) → total (k ∷ []) ≡ secret k
  unfolding total
  total_one k = add_secret_comm (secret k) no_secret ∙ none-add (secret k)

  pub total-insert_sorted :
      (k : ℕ) (ks : List ℕ) → total (insert_sorted k ks) ≡ add_secret (total ks) (secret k)
  unfolding total
  total-insert_sorted k [] = add_secret_comm (secret k) no_secret
  total-insert_sorted k (x ∷ xs) = elim (Bool-cases (ltb k x)) [
    | inl less ↦ rw less (add_secret_comm (secret k) (add_secret (secret x) (total xs)))
    | inr more ↦
        rw (more, total-insert_sorted k xs)
          (sym (add_secret_assoc (secret x) (total xs) (secret k)))
  ]

  -- The keys of the database, at an offset, are those of the secret keys.
  abbrev pub Stored : PubKeyDb B → ℕ → ℕ → Type 0
  Stored db offset n =
      (k : ℕ) → k < n → lookup (u32 (k + offset)) db ≡ some (B.get_public_key (secret k))

  sum_keys-total :
      (db : PubKeyDb B) (offset lo n : ℕ) (ks : List ℕ) (s : B.SecretKey)
      → Stored db offset n
      → Between lo n ks
      → sum_keys B db offset ks (B.get_public_key s) ≡ B.get_public_key (add_secret s (total ks))
  unfolding sum_keys total
  sum_keys-total db offset lo n [] s h p =
      ap B.get_public_key (sym (add_secret_comm s no_secret ∙ none-add s))
  sum_keys-total db offset lo n (k ∷ ks) s h p =
      rw (h k (Between-le (suc k) n ks p.1), ← public-add s (secret k))
        (sum_keys-total db offset (suc k) n ks (add_secret s (secret k)) h p.1
          ∙ ap B.get_public_key (add_secret_assoc s (secret k) (total ks)))

  aggregate-total :
      (db : PubKeyDb B) (offset n : ℕ) (ks : List ℕ)
      → Stored db offset n
      → Between 0 n ks
      → sum_keys B db offset ks B.no_key ≡ B.get_public_key (total ks)
  aggregate-total db offset n ks h p =
      ap (λ (z : B.PublicKey). sum_keys B db offset ks z) (sym public-none)
      ∙ sum_keys-total db offset 0 n ks no_secret h p
      ∙ ap B.get_public_key (none-add (total ks))

  pub verify_aggregate-total :
      (store : PubKeyStore B) (db : PubKeyDb B) (shard offset n : ℕ) (bitmap : Bitmap) (ks : List ℕ)
      (msg : List ℕ)
      → lookup shard store ≡ some db
      → Stored db offset n
      → get_element bitmap ≡ ks
      → Between 0 n ks
      → B.get_public_key (total ks) ≢ B.no_key
      → verify_aggregate_sig B store
          (B.serialize (B.sign_byte (total ks) msg))
          msg
          bitmap
          shard
          offset
        ≡ true
  unfolding verify_aggregate_sig get_aggregate_pub_key db_aggregate
  verify_aggregate-total store db shard offset n bitmap ks msg here h listed p usable =
      rw
        (
          verify_aggregate_sig,
          L.deserialize-serialize,
          here,
          get_aggregate_pub_key,
          listed,
          aggregate-total db offset n ks h p,
        )
        (L.verify-sign (total ks) msg usable)
