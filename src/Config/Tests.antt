-- ===== src/Config/Tests.antt =====
-- Settings of the services under services/ on concrete texts.
use obarena.Prelude.{◌≡◌, refl, negsuc, [], ◌∷◌, none, some}
use obarena.Config.Numbers.{atoi, format_int}
use obarena.Config.Brokers.{broker_list}

read_back : atoi "-120" ≡ some (negsuc 119)
unfolding atoi
read_back = refl

no_number : atoi "12x" ≡ none
unfolding atoi
no_number = refl

out_of_range : atoi "9223372036854775808" ≡ none
unfolding atoi
out_of_range = refl

least_int : atoi "-9223372036854775808" ≡ some (negsuc 9223372036854775807)
unfolding atoi
least_int = refl

printed : format_int (negsuc 119) ≡ "-120"
unfolding format_int
printed = refl

two_brokers : broker_list " a:9092 , ,b:9092," ≡ "a:9092" ∷ "b:9092" ∷ []
unfolding broker_list
two_brokers = refl
