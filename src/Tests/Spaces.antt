-- ===== src/Tests/Spaces.antt =====
-- Tests and witnesses for pages.
use gomer.Base.{◌≡◌, ◌≤◌, refl, true, false, some, none, [], ◌∷◌, List, Option, length, all}
use gomer.Base.Text.{codes, is_white}
use gomer.Spaces.Page.{
  Units, PageEdit, apply_page_edits, page, not_changed, no_match, bad_shape, has_tag,
  max_page_chars,
}
use gomer.Spaces.Page.Edits.{Applied, apply_page_edits-Applied}

abbrev html : Units
html = codes "<p>hello</p>"

abbrev greet : List (Option PageEdit)
greet =
    some (record { find = codes "hello"; replace = codes "good day" })
    ∷ some (record { find = codes "day"; replace = codes "night" })
    ∷ []

abbrev wrong : List (Option PageEdit)
wrong = some (record { find = codes "bye"; replace = [] }) ∷ none ∷ []

edits_run : apply_page_edits html greet ≡ page (codes "<p>good night</p>")
unfolding apply_page_edits
edits_run = refl

edits_fail : apply_page_edits html wrong ≡ not_changed (no_match 0 ∷ bad_shape 1 ∷ [])
unfolding apply_page_edits
edits_fail = refl

-- Two matches that overlap count as one.
overlap_runs :
    apply_page_edits
      (codes "<p>aaa</p>")
      (some (record { find = codes "aa"; replace = codes "b" }) ∷ [])
    ≡ page (codes "<p>ba</p>")
unfolding apply_page_edits
overlap_runs = refl

apply_page_edits-Applied_example :
    Applied html greet (codes "<p>good night</p>")
    × (all is_white (codes "<p>good night</p>") ≡ false)
    × (length (codes "<p>good night</p>") ≤ max_page_chars)
    × (has_tag (codes "<p>good night</p>") ≡ true)
apply_page_edits-Applied_example =
    apply_page_edits-Applied html (codes "<p>good night</p>") greet edits_run
