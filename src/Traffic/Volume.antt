-- ===== src/Traffic/Volume.antt =====
-- Sums over the rows of `traffic_samples`: `SELECT SUM(amount) ... WHERE q`.
use matreshka_panel.Base.{
  ℕ, ◌+◌, ◌≡◌, refl, Bool, true, false, ◌&&◌, List, [], ◌∷◌, select, delete, upsert, if◌then◌else◌,
  arith, ◌==◌, ==_iff, Key, Time,
}
use matreshka_panel.Registry.{Engine, engine_eq}
use matreshka_panel.Traffic.Samples.{Sample, same_key, add_sample, Bucket, bucket_eq, is_older}

unfoldable pub volume : (Sample → Bool) → (Sample → ℕ) → List Sample → ℕ
volume q amount [] = 0
volume q amount (x ∷ xs) = let rest = volume q amount xs in if q x then amount x + rest else rest

-- An amount that adds up when rows are merged, and a test that reads only the key of a row.
pub record Merges (q : Sample → Bool) (amount : Sample → ℕ) : Type 0 where
  pub adds : (new old : Sample) → amount (add_sample new old) ≡ amount old + amount new
  pub keeps : (new old : Sample) → q (add_sample new old) ≡ q old
  pub by_key : (a b : Sample) → same_key a b ≡ true → q b ≡ q a

pub volume-upsert :
    (q : Sample → Bool) (amount : Sample → ℕ) (m : Merges q amount) (new : Sample)
    (xs : List Sample)
    → volume q amount (upsert (same_key new) (add_sample new) new xs)
      ≡ volume q amount xs + (if q new then amount new else 0)
unfolding volume upsert
volume-upsert q amount m new [] = ground arith
volume-upsert q amount m new (x ∷ xs) =
    ground (arith, m.adds new x, m.keeps new x, m.by_key new x, volume-upsert q amount m new xs)

-- Deleting rows takes what they held.
pub volume-delete :
    (p q : Sample → Bool) (amount : Sample → ℕ) (xs : List Sample)
    → volume q amount (delete p xs) + volume (λ x. p x && q x) amount xs ≡ volume q amount xs
unfolding volume delete
volume-delete p q amount [] = refl
volume-delete p q amount (x ∷ xs) = ground (arith, volume-delete p q amount xs)

pub volume-select :
    (p q : Sample → Bool) (amount : Sample → ℕ) (xs : List Sample)
    → volume q amount (select p xs) ≡ volume (λ x. p x && q x) amount xs
unfolding volume select
volume-select p q amount [] = refl
volume-select p q amount (x ∷ xs) = ground (arith, volume-select p q amount xs)

-- The rows of one device and engine.
abbrev pub of_device : Key → Engine → Sample → Bool
of_device d e x = x.device_id == d && engine_eq x.engine e

-- The rows of a bucket that are due, of one device and engine.
abbrev pub due_of_device : Bucket → Time → Key → Engine → Sample → Bool
due_of_device b before d e x = is_older b before x && of_device d e x

engine_eq→eq : (a b : Engine) → engine_eq a b ≡ true → a ≡ b
engine_eq→eq a b h = ground arith

bucket_eq→eq : (a b : Bucket) → bucket_eq a b ≡ true → a ≡ b
bucket_eq→eq a b h = ground arith

same_key-of_device :
    (d : Key) (e : Engine) (a b : Sample) → same_key a b ≡ true → of_device d e b ≡ of_device d e a
same_key-of_device d e a b same =
    ground (arith, same, ==_iff b.device_id a.device_id, engine_eq→eq b.engine a.engine)

same_key-is_older :
    (k : Bucket) (before : Time) (a b : Sample)
    → same_key a b ≡ true
    → is_older k before b ≡ is_older k before a
same_key-is_older k before a b same =
    ground (arith, same, ==_iff b.bucket_at a.bucket_at, bucket_eq→eq b.bucket a.bucket)

-- The two amounts of a sample.
pub data Amount : Type 0 where
  uploaded downloaded : Amount

abbrev pub amount_of : Amount → Sample → ℕ
amount_of uploaded x = x.upload
amount_of downloaded x = x.download

amount_of-add_sample :
    (k : Amount) (new old : Sample)
    → amount_of k (add_sample new old) ≡ amount_of k old + amount_of k new
amount_of-add_sample uploaded new old = refl
amount_of-add_sample downloaded new old = refl

pub of_device-Merges : (d : Key) (e : Engine) (k : Amount) → Merges (of_device d e) (amount_of k)
of_device-Merges d e k = record {
  adds = amount_of-add_sample k;
  keeps = λ new old. refl;
  by_key = same_key-of_device d e;
}

pub due-Merges :
    (b : Bucket) (before : Time) (d : Key) (e : Engine) (k : Amount)
    → Merges (due_of_device b before d e) (amount_of k)
due-Merges b before d e k = record {
  adds = amount_of-add_sample k;
  keeps = λ new old. refl;
  by_key =
      λ x y same. rw (same_key-of_device d e x y same, same_key-is_older b before x y same) refl;
}

pub volume-none :
    (q : Sample → Bool) (amount : Sample → ℕ) (xs : List Sample)
    → ((x : Sample) → q x ≡ false)
    → volume q amount xs ≡ 0
unfolding volume
volume-none q amount [] h = refl
volume-none q amount (x ∷ xs) h = ground (arith, h x, volume-none q amount xs h)
