-- ===== src/Auth/Primitives.antt =====
-- What internal/auth takes from other packages, as a parameter: bcrypt, HMAC-SHA256 and the random
-- bytes that a run draws.
use wafportal.Base.{Text, Bool, Result}

pub record Crypto : Type 0 where
  -- bcrypt.GenerateFromPassword with the salt that it draws, and CompareHashAndPassword(…) == nil
  pub hash_password : Text → Text → Result Text
  pub compare_hash : Text → Text → Bool
  -- the sum of hmac.New(sha256.New, secret) over a message
  pub mac : Text → Text → Text

-- The answers of rand.Read for the session secret and the first password, and bcrypt's salt.
pub record Entropy : Type 0 where
  pub secret_bytes : Result Text
  pub password_bytes : Result Text
  pub salt : Text
