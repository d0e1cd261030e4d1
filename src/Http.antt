-- ===== src/Http.antt =====
-- The parts of a fetch `Response` that the source reads. `header` is `res.headers.get(name)`; `body` is
-- `none` where reading it rejects.
use vellar_sdk.Prelude.{ℕ, String, Option, leb, ltb, Bool, ◌&&◌}

pub record Response : Type 0 where
  pub status : ℕ
  pub header : String → Option String
  pub body : Option String

-- `res.ok`.
abbrev pub is_ok : Response → Bool
is_ok res = leb 200 res.status && ltb res.status 300
