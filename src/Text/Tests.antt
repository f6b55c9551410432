-- ===== src/Text/Tests.antt =====
-- A token that is put together and taken apart.
use saa_s_app_be.Prelude.{◌≡◌, refl, some}
use saa_s_app_be.Text.{is_space}
use saa_s_app_be.Text.Laws.{IsTokenText}
use saa_s_app_be.Text.Token.{parse_token, format_token, parse_token-format_token}

j1_text : IsTokenText "j1"
unfolding is_space
j1_text = (refl, refl, (refl, refl, tt))

s_text : IsTokenText "s"
unfolding is_space
s_text = (refl, refl, tt)

parse_token-format_token_example :
    parse_token (format_token "j1" "s") ≡ some (record { jti = "j1"; secret = "s" })
parse_token-format_token_example = parse_token-format_token "j1" "s" j1_text s_text refl refl
