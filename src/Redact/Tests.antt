-- ===== src/Redact/Tests.antt =====
-- What `_redact` does to texts (src/api/middleware/error_handling.py).
use flyrank_capstone_meterin.Prelude.{◌≡◌, refl}
use flyrank_capstone_meterin.Redact.{redact}

key_removed : redact "Bad key sk_live_abc-9 at host" ≡ "Bad key sk_live_REDACTED at host"
unfolding redact
key_removed = refl

url_removed :
    redact "postgresql://app:pw@db:5432/x password=a&b"
    ≡ "postgresql://user:REDACTED@db:5432/x password=REDACTED&b"
unfolding redact
url_removed = refl
