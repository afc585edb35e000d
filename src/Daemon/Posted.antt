-- ===== src/Daemon/Posted.antt =====
-- What the phone shows of a fired watch: internal/notify/ntfy.go under the settings of
-- internal/config, told from the notification alone.
use scootless.Base.{
  ℕ, zero, suc, ◌≡◌, refl, ap, ◌∙◌, Bool, String, ◌<>◌, List, [], ◌∷◌, ◌++◌, map, take, Option,
  none, some, ◌==◌, string_eq, nat_eq, if◌then◌else◌, length, length-map,
}
use scootless.Base.Int.{pos, ltb_ℤ}
use scootless.Base.Text.{trim_suffix, trim_right, or_else}
use scootless.Float.{Float64, Math}
use scootless.Geo.{compass}
use scootless.Entur.Vehicles.{Vehicle}
use scootless.Poll.Run.{Notification}
use scootless.Config.{Config}
use scootless.Notify.Payloads.{kind_text, payload_of, vehicle_of, Format, Post, SinkError}
use scootless.Notify.{
  Options, Connection, Response, first_app_link, ntfy_body, body_lines, ntfy_post, ntfy_url,
}
use scootless.Daemon.{ntfy_of}
use Prim.Native.Char.{code}

-- What is left of a list after its first elements.
abbrev pub rest_of {ℓ} : {A : Type ℓ} → ℕ → List A → List A
rest_of zero xs = xs
rest_of (suc n) [] = []
rest_of (suc n) (x ∷ xs) = rest_of n xs

pub rest_of-map {ℓ κ} :
    {A : Type ℓ} {B : Type κ} (g : A → B) (n : ℕ) (xs : List A)
    → map g (rest_of n xs) ≡ rest_of n (map g xs)
rest_of-map g zero xs = refl
rest_of-map g (suc n) [] = refl
rest_of-map g (suc n) (x ∷ xs) = rest_of-map g n xs

pub rest_of-append {ℓ} : {A : Type ℓ} (xs ys : List A) → rest_of (length xs) (xs ++ ys) ≡ ys
rest_of-append [] ys = refl
rest_of-append (x ∷ xs) ys = rest_of-append xs ys

abbrev first_link : List Vehicle → Option String
first_link [] = none
first_link (v ∷ vs) = if v.app_link_ios == "" then first_link vs else some v.app_link_ios

module _ (m : Math) (f : Format) where
  -- A distance in whole metres, rounded.
  abbrev metres : Vehicle → String
  metres v = f.whole (m.to_int (m.add v.distance_m (m.decimal 5 1)))

  abbrev charge : Option Float64 → String
  charge none = ""
  charge (some b) = " · " <> f.fixed 0 b <> "%"

  -- The line of a vehicle: its operator, how far it is and where, how far it goes, and its charge.
  abbrev line_of : Vehicle → String
  line_of v =
      v.operator
      <> " · "
      <> metres v
      <> " m "
      <> or_else "" (compass m v.bearing_deg)
      <> " · "
      <> f.fixed 1 (m.div (m.of_int v.range_m) (m.decimal 1000 0))
      <> " km range"
      <> charge v.fuel_pct

  -- Lines, each with its end, and what follows them.
  abbrev lines : List Vehicle → String → String
  lines [] after = after
  lines (v ∷ vs) after = line_of v <> "\n" <> lines vs after

  abbrev more : List Vehicle → String
  more [] = ""
  more (v ∷ vs) = "and " <> f.whole (pos (length (v ∷ vs))) <> " more"

  -- The title and the text: how many vehicles are in the fence where none is named, and otherwise
  -- the first five of them.
  abbrev title_for : Notification → List Vehicle → String
  title_for n [] = "Scooters running low"
  title_for n (v ∷ vs) =
      if kind_text n.kind == "scarcity"
      then f.whole (pos n.count) <> " left near " <> n.fence.name
      else v.operator <> " " <> metres v <> " m away"

  abbrev text_for : Notification → List Vehicle → String
  text_for n [] =
      f.whole (pos n.count) <> " within " <> f.whole n.fence.radius_m <> " m of " <> n.fence.name
  text_for n (v ∷ vs) =
      trim_right (λ c. code c == 10) (lines (take 5 (v ∷ vs)) (more (rest_of 5 (v ∷ vs))))

  -- The post for a notification, under some settings.
  abbrev pub post_for : Config → Notification → Post
  post_for c n = record {
    url = trim_suffix c.ntfy_server "/" <> "/" <> c.ntfy_topic;
    title = title_for n n.vehicles;
    tags = "scooter";
    priority =
        if kind_text n.kind == "scarcity"
        then pos 3
        else if ltb_ℤ (pos 0) c.ntfy_priority
        then c.ntfy_priority
        else pos 4;
    authorization = if c.ntfy_token == "" then none else some ("Bearer " <> c.ntfy_token);
    click = first_link n.vehicles;
    body = text_for n n.vehicles;
  }

  first_app_link-payload :
      (vs : List Vehicle) → first_app_link (map (vehicle_of m) vs) ≡ first_link vs
  unfolding first_app_link
  first_app_link-payload [] = refl
  first_app_link-payload (v ∷ vs) =
      ap (λ rest. if v.app_link_ios == "" then rest else some v.app_link_ios)
        (first_app_link-payload vs)

  body_lines-payload :
      (left : ℕ) (vs : List Vehicle)
      → body_lines m f left (map (vehicle_of m) vs) ≡ lines (take left vs) (more (rest_of left vs))
  unfolding body_lines
  body_lines-payload zero [] = refl
  body_lines-payload zero (v ∷ vs) =
      ap (λ k. "and " <> f.whole (pos (suc k)) <> " more") (length-map (vehicle_of m) vs)
  body_lines-payload (suc left) [] = refl
  body_lines-payload (suc left) (v ∷ vs) =
      ap (λ rest. line_of v <> "\n" <> rest) (body_lines-payload left vs)

  text-payload :
      (n : Notification) (vs : List Vehicle)
      → ntfy_body m f (payload_of m n) (map (vehicle_of m) vs) ≡ text_for n vs
  unfolding ntfy_body payload_of
  text-payload n [] = refl
  text-payload n (v ∷ vs) = ap (trim_right (λ c. code c == 10)) (body_lines-payload 5 (v ∷ vs))

module _ (m : Math) (f : Format) (join : List SinkError → SinkError)
    (connect : Options → Connection) (well_formed : String → Bool) (http : Post → Response) where
  -- The post that `Ntfy.Publish` makes is the one that the notification and the settings call for.
  pub ntfy_post_lem :
      (c : Config) (n : Notification)
      → ntfy_post m f (ntfy_of m f join connect well_formed http c) (payload_of m n)
        ≡ post_for m f c n
  unfolding ntfy_post payload_of ntfy_url
  ntfy_post_lem c n = told n.vehicles
    where
      told :
          (vs : List Vehicle)
          → ntfy_post m f
              (ntfy_of m f join connect well_formed http c)
              (payload_of m (record n { vehicles = vs }))
            ≡ post_for m f c (record n { vehicles = vs })
      told [] = refl
      told (v ∷ vs) =
          let k = record n { vehicles = v ∷ vs } in
          let sent = ntfy_post m f (ntfy_of m f join connect well_formed http c) (payload_of m k) in
          ap (λ click. record sent { click = click }) (first_app_link-payload m f (v ∷ vs))
          ∙ ap (λ body. record (post_for m f c k) { body = body }) (text-payload m f k (v ∷ vs))
