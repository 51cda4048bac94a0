-- ===== src/Storage/Object.antt =====
-- The S3 client of internal/storage/s3.go as the storage uses it: a bucket of objects by key. The
-- service is not part of the program, so its calls and the behaviour relied on are parameters.
use ib.Prelude.{Str, Bytes, ◌≡◌, false, Option, none, Result, ok, str_eq}

-- A call may fail and still have changed the bucket. The error is its message.
pub record S3 : Type 1 where
  pub State : Type 0
  pub put : Str → Bytes → State → State × Option Str
  pub get : Str → State → Result Bytes
  pub delete : Str → State → State × Option Str

-- PutObject, GetObject and DeleteObject touch the object of their key only, and an object that was
-- put without an error is read back.
pub record IsLawful (S : S3) : Type 0 where
  pub get-put :
      (k : Str) (d : Bytes) (s : S.State) → (S.put k d s).1 ≡ none → S.get k (S.put k d s).0 ≡ ok d
  pub get-put_other :
      (j k : Str) (d : Bytes) (s : S.State)
      → str_eq j k ≡ false
      → S.get j (S.put k d s).0 ≡ S.get j s
  pub get-delete_other :
      (j k : Str) (s : S.State) → str_eq j k ≡ false → S.get j (S.delete k s).0 ≡ S.get j s
