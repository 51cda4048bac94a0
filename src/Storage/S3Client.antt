-- ===== src/Storage/S3Client.antt =====
-- internal/storage/s3.go: the S3 client over the AWS SDK.
use ib.Prelude.{
  ◌≡◌, ◌++◌, subst, inl, inr, codes, is_empty, if◌then◌else◌, Result-cases, Str, Bytes, Bool, true,
  false, Option, none, some, Result, ok, err, str_eq, arith,
}
use ib.Config.{ServerConfig}
use ib.Storage.Object as Object
use ib.Storage.Object.{S3}

-- s3.Client: PutObject, GetObject with the body as io.ReadAll gives it, DeleteObject and HeadObject,
-- each for a bucket and a key.
pub record Sdk : Type 1 where
  pub State : Type 0
  pub put_object : Str → Str → Bytes → State → State × Option Str
  pub get_object : Str → Str → State → Result (Result Bytes)
  pub delete_object : Str → Str → State → State × Option Str
  pub head_object : Str → Str → State → Option Str

-- An object that was put without an error is found and its body can be read, and a call changes the
-- object of its key only.
pub record IsLawfulSdk (K : Sdk) : Type 0 where
  pub get-put :
      (b k : Str) (d : Bytes) (s : K.State)
      → (K.put_object b k d s).1 ≡ none
      → K.get_object b k (K.put_object b k d s).0 ≡ ok (ok d)
  pub get-put_other :
      (b j k : Str) (d : Bytes) (s : K.State)
      → str_eq j k ≡ false
      → K.get_object b j (K.put_object b k d s).0 ≡ K.get_object b j s
  pub get-delete_other :
      (b j k : Str) (s : K.State)
      → str_eq j k ≡ false
      → K.get_object b j (K.delete_object b k s).0 ≡ K.get_object b j s

module _ (K : Sdk) (bucket : Str) where
  s3_put : Str → Bytes → K.State → K.State × Option Str
  s3_put key content s = K.put_object bucket key content s

  s3_get : Str → K.State → Result Bytes
  s3_get key s = elim (K.get_object bucket key s) [ err m ↦ err m | ok body ↦ body ]

  s3_delete : Str → K.State → K.State × Option Str
  s3_delete key s = K.delete_object bucket key s

  -- Every error counts as an object that is not there.
  unfoldable pub s3_exists : Str → K.State → Result Bool
  s3_exists key s = elim (K.head_object bucket key s) [ some m ↦ ok false | none ↦ ok true ]

  unfoldable pub s3_client : S3
  unfolding s3_put s3_get s3_delete
  s3_client = record { State = K.State; put = s3_put; get = s3_get; delete = s3_delete }

  -- The client is what the storage relies on.
  pub s3_client-IsLawful : IsLawfulSdk K → Object.IsLawful s3_client
  unfolding s3_client s3_get s3_put s3_delete
  s3_client-IsLawful L = record {
    get-put = λ k d s h. ground (arith, L.get-put bucket k d s h);
    get-put_other = λ j k d s h. ground (arith, L.get-put_other bucket j k d s h);
    get-delete_other = λ j k s h. ground (arith, L.get-delete_other bucket j k s h);
  }

-- What LoadDefaultConfig is given: the region, the static credentials without a session token, and
-- the URL of a service's endpoint in a region, with a host that is not changed, or none where it is
-- not found.
pub record AwsOptions : Type 0 where
  pub region : Str
  pub access_key : Str
  pub secret_key : Str
  pub endpoint : Str → Str → Option Str

-- aws-sdk-go-v2/config and s3.NewFromConfig, with whether buckets stand in the path.
pub record Aws : Type 1 where
  pub Config : Type 0
  pub load_default_config : AwsOptions → Result Config
  pub new_from_config : Config → Bool → Sdk

-- The configured endpoint for every service, if there is one.
unfoldable pub custom_resolver : ServerConfig → Str → Str → Option Str
custom_resolver cfg service region = if is_empty cfg.s3_endpoint then none else some cfg.s3_endpoint

module _ (aws : Aws) where
  unfoldable pub new_s3_client : ServerConfig → Result S3
  unfolding custom_resolver
  new_s3_client cfg =
      elim (aws.load_default_config (record {
        region = cfg.s3_region;
        access_key = cfg.s3_access_key;
        secret_key = cfg.s3_secret_key;
        endpoint = custom_resolver cfg;
      })) [
        | err m ↦ err (codes "failed to load AWS config: " ++ m)
        | ok c ↦ ok (s3_client (aws.new_from_config c true) cfg.s3_bucket)
      ]

  -- A client that is made is what the storage relies on, if the SDK's clients with buckets in the
  -- path are lawful.
  pub new_s3_client-IsLawful :
      (cfg : ServerConfig) (S : S3)
      → ((c : aws.Config) → IsLawfulSdk (aws.new_from_config c true))
      → new_s3_client cfg ≡ ok S
      → Object.IsLawful S
  unfolding new_s3_client
  new_s3_client-IsLawful cfg S lawful made =
      elim (Result-cases (
        aws.load_default_config (record {
          region = cfg.s3_region;
          access_key = cfg.s3_access_key;
          secret_key = cfg.s3_secret_key;
          endpoint = custom_resolver cfg;
        }))) [
          | inr (m, q) ↦ absurd (ground (arith, q, made))
          | inl (c, q) ↦
              subst Object.IsLawful (ground (arith, q, made))
                (s3_client-IsLawful (aws.new_from_config c true) cfg.s3_bucket (lawful c))
        ]
