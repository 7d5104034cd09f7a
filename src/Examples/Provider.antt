-- ===== src/Examples/Provider.antt =====
-- A provider ID of AWS.
use gpuid.Base.{to_lower, ◌≡◌, refl, if◌then◌else◌, ok, err, Text, codes, is_empty}
use gpuid.Node.Provider.{provider_id_empty, invalid_format, parse_node_info}
use gpuid.Node.Provider.Laws.{has_char, before_first, after_last, parse_node_info_lem}

abbrev aws : Text
aws = codes "AWS:///us-west-2a/i-0ab"

identifier_test : after_last b'/' aws ≡ codes "i-0ab"
unfolding after_last
identifier_test = refl

provider_test : to_lower (λ c. c) (before_first b':' aws) ≡ codes "aws"
unfolding before_first to_lower
provider_test = refl

parse_node_info_lem_example : parse_node_info (λ c. c) aws ≡ (
    if has_char b':' aws
    then ok (record {
      provider = to_lower (λ c. c) (before_first b':' aws);
      identifier = after_last b'/' aws;
      raw = aws;
    })
    else if is_empty aws
    then err provider_id_empty
    else err invalid_format)
parse_node_info_lem_example = parse_node_info_lem (λ c. c) aws
