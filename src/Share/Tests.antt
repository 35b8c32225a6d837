-- ===== src/Share/Tests.antt =====
-- The page of a shared report and the button that shares, on small inputs.
use lawn_eve_intel_dashboard.Common.{ℕ, ◌≡◌, refl, false, some, [], ◌∷◌}
use lawn_eve_intel_dashboard.Share.{
  Load, Page, ok, responded, open_page, move, respond, read_body, is_loading,
}
use lawn_eve_intel_dashboard.Share.Endings.{here, Reach, opens, moves, responds, reads, read, IsOwn}
use lawn_eve_intel_dashboard.Share.Loads.{Reach-IsOwn}
use lawn_eve_intel_dashboard.Share.Stale.{overtaken, stale_body}
use lawn_eve_intel_dashboard.Share.Button.{
  Sharing, unshared, link, alliance, published, failed, press_share, press_switch, press, finish,
  enabled_presses,
}
use lawn_eve_intel_dashboard.Share.Links
use lawn_eve_intel_dashboard.Share.Links.{IsSound, Reach-IsSound}

abbrev first_load : Load
first_load = record { run = 0; token = "a" }

abbrev second_load : Load
second_load = record { run = 1; token = "b" }

-- The page moves from `a` to `b`; then both requests end, that of `a` last.
abbrev moved : Page ℕ
moved = move "b" false (open_page "a" false)

abbrev shown : Page ℕ
shown =
    respond first_load (responded 403)
      (read_body second_load (some 7) (respond second_load (responded 200) moved))

shown-Reach : Reach shown (read (some 7) ∷ [])
unfolding open_page move respond read_body
shown-Reach =
    responds first_load (responded 403)
      (reads second_load (some 7)
        (responds second_load (responded 200) (moves "b" false (opens "a" false) refl) here) here)
      here

Reach-IsOwn_example : IsOwn (read (some 7) ∷ []) shown
unfolding is_loading shown-Reach respond read_body move open_page
Reach-IsOwn_example = Reach-IsOwn shown-Reach refl

shown_status : shown.status ≡ ok
unfolding open_page move respond read_body
shown_status = refl

-- The body for `a` is being read when the page moves to `b`, which is refused.
abbrev reading : Page ℕ
reading = respond first_load (responded 200) (open_page "a" false)

reading-Reach : Reach reading []
unfolding open_page respond
reading-Reach = responds first_load (responded 200) (opens "a" false) here

stale_body_example :
    (is_loading (overtaken first_load 5 "b" false (responded 403) reading) ≡ false)
    × ((overtaken first_load 5 "b" false (responded 403) reading).token ≡ "b")
    × ((overtaken first_load 5 "b" false (responded 403) reading).status ≡ ok)
    × ((overtaken first_load 5 "b" false (responded 403) reading).report
        ≡ some (record { token = "a"; body = 5 }))
unfolding open_page respond
stale_body_example =
    stale_body reading [] first_load 5 "b" false (responded 403) reading-Reach here refl

abbrev linked : Sharing
linked = finish link (published "/s/x") (press press_share unshared)

linked-Reach : Links.Reach linked
unfolding press enabled_presses
linked-Reach =
    Links.ends link (published "/s/x") (Links.pressed press_share Links.start Links.front) refl

abbrev switched : Sharing
switched = finish alliance (published "/s/y") (press press_switch linked)

switched-Reach : Links.Reach switched
unfolding press enabled_presses finish
switched-Reach =
    Links.ends alliance (published "/s/y")
      (Links.pressed press_switch linked-Reach (Links.behind Links.front)) refl

Reach-IsSound_example :
    IsSound switched
    × ((finish link (failed "503") switched).share ≡ switched.share)
    × ((finish link (failed "503") switched).visibility ≡ switched.visibility)
Reach-IsSound_example = Reach-IsSound link "503" switched-Reach

switched_share : switched.share ≡ some (record { url = "/s/y"; published_as = alliance })
unfolding press finish
switched_share = refl
