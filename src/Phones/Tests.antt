-- ===== src/Phones/Tests.antt =====
-- A number as it is typed.
use pmvp.Prelude.{◌≡◌, refl, some, ◌++◌}
use pmvp.Text.{Text, codes}
use pmvp.Phones.{country, normalise_gh_mobile}
use pmvp.Phones.Shape.{IsNational, normalise_gh_mobile-IsNational}

typed : normalise_gh_mobile (some (codes "024 412-3456")) ≡ some (codes "233244123456")
unfolding normalise_gh_mobile
typed = refl

normalise_gh_mobile-IsNational_example :
    ((national : Text) × (codes "233244123456" ≡ country ++ national) × IsNational national)
    × (normalise_gh_mobile (some (codes "233244123456")) ≡ some (codes "233244123456"))
normalise_gh_mobile-IsNational_example =
    normalise_gh_mobile-IsNational (some (codes "024 412-3456")) typed
