-- ===== src/Tests/Strings.antt =====
-- The text helpers of src/tools.cc at concrete texts.
use yatb.Prelude.{◌≡◌, refl}
use yatb.Strings.{trim, correct_reply}
use yatb.Text.{codes}

trim_run : trim (codes " \tkey = value \n") (codes " \n\r\t") ≡ codes "key = value"
unfolding trim
trim_run = refl

correct_reply_run : correct_reply (codes "200- a\n200 b\r\n") ≡ codes "200- a\r\n200 b\r\n"
unfolding correct_reply
correct_reply_run = refl
