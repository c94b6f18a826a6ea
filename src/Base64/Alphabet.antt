-- ===== src/Base64/Alphabet.antt =====
-- The characters of the alphabet: each stands for its sextet, and none is a sign of padding.
use appbase.Prelude.{ℕ, ◌<◌, ◌≡◌, false, some, arith, nat_eq}
use appbase.Base64.{sextet_char, char_sextet, to_url, from_url, is_white}

module _ (v : ℕ) (h : v < 64) where
  pub char_sextet-sextet_char : char_sextet (sextet_char v) ≡ some v
  unfolding char_sextet sextet_char
  char_sextet-sextet_char = ground arith

  pub from_url-to_url : from_url (to_url (sextet_char v)) ≡ sextet_char v
  unfolding from_url to_url sextet_char
  from_url-to_url = ground arith

  pub not_equals : nat_eq (sextet_char v) b'=' ≡ false
  unfolding sextet_char
  not_equals = ground arith

  pub url_not_equals : nat_eq (to_url (sextet_char v)) b'=' ≡ false
  unfolding to_url sextet_char
  url_not_equals = ground arith

  pub not_white : is_white (sextet_char v) ≡ false
  unfolding is_white sextet_char
  not_white = ground arith
