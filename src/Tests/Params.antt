-- ===== src/Tests/Params.antt =====
-- The params on the command line (internal/config/config.go).
use virtwork.Base.{[], ◌∷◌, map, err, ◌≡◌, ◌≢◌, refl}
use virtwork.Base.Text.Split.{contains, contains-Without, join, split, cut}
use virtwork.Base.Text.Fold.{trim_space}
use virtwork.Config.Params.{Entry, missing_equals, parse_params, parse_pairs}
use virtwork.Config.Params.RoundTrip.{IsEntry, print, parse_params-Reads, Reads}

abbrev load : Entry
load = ("cpu", "load", "80")

abbrev size : Entry
size = ("disk", "size", "10=Gi")

load-IsEntry : IsEntry load
unfolding contains trim_space
load-IsEntry = (
  (λ e. absurd (cc)),
  contains-Without b'.' "cpu" refl,
  (λ e. absurd (cc)),
  contains-Without b'=' "load" refl,
  contains-Without b',' "cpu.load=80" refl,
  refl,
)

size-IsEntry : IsEntry size
unfolding contains trim_space
size-IsEntry = (
  (λ e. absurd (cc)),
  contains-Without b'.' "disk" refl,
  (λ e. absurd (cc)),
  contains-Without b'=' "size" refl,
  contains-Without b',' "disk.size=10=Gi" refl,
  refl,
)

trimmed :
    trim_space (join "," (map print (load ∷ size ∷ []))) ≡ join "," (map print (load ∷ size ∷ []))
unfolding trim_space join
trimmed = refl

both_filled : (load ∷ size ∷ []) ≢ []
both_filled h = absurd (cc)

parse_params-Reads_example :
    Reads (load ∷ size ∷ []) (parse_params (join "," (map print (load ∷ size ∷ []))))
parse_params-Reads_example =
    parse_params-Reads (load ∷ size ∷ []) both_filled (load-IsEntry, (size-IsEntry, tt)) trimmed

no_equals_run : parse_params "cpu.load" ≡ err (missing_equals "cpu.load")
unfolding parse_params parse_pairs split cut trim_space
no_equals_run = refl
