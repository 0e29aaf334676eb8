-- ===== src/Identity/Tests.antt =====
-- Runs of the resolver of apps/edge/src/lib/lead-resolver.ts.
use globaltracker.Prelude.{
  List, false, true, trim_start, ◌≡◌, ◌≢◌, refl, length, inl, inr, Text, codes, some, none, [], ◌∷◌,
  is_space, text_eq, map,
}
use globaltracker.Identity.Types.{Store, Input}
use globaltracker.Identity.Resolver.{distinct, resolve_canonical, resolve_from}
use globaltracker.Identity.Normalize.{normalize_local, normalize_international, normalize_phone}
use globaltracker.Identity.Phone.{AllDigits, normalize_phone_shape}
use globaltracker.Identity.Spellings.{mobile_spellings}
use globaltracker.Identity.Evolution.{Evolves}
use globaltracker.Identity.Safety.{resolve_lead_by_aliases-Evolves}
use globaltracker.Identity.Ownership.{Owns}
use globaltracker.Identity.Resolution.{resolve_lead_by_aliases-Owns}
use globaltracker.Identity.Merging.{hash_identifiers}
use globaltracker.Identity.Types.{Resolved, ResolveResult}
use globaltracker.Identity.Merging.{resolve_lead_by_aliases}

abbrev empty_store : Store
empty_store = record { leads = []; aliases = []; merges = [] }

abbrev by_email : Input
by_email = record { email = codes " a@b.c"; phone = []; external_id = [] }

abbrev by_phone : Input
by_phone = record { email = []; phone = codes "51 9584-9212"; external_id = [] }

abbrev by_both : Input
by_both = record { email = codes "a@b.c"; phone = codes "+5551995849212"; external_id = [] }

abbrev identity : Text → Text
identity t = t

abbrev run : Input → Text → Store → Store
run input id s = (resolve_lead_by_aliases identity identity (codes "w") 5 none id input s).1

abbrev two_leads : Store
two_leads = run by_phone (codes "p") (run by_email (codes "e") empty_store)

converges : map (λ l. l.id) (run by_both (codes "n") two_leads).leads ≡ codes "e" ∷ codes "p" ∷ []
unfolding resolve_lead_by_aliases is_space text_eq distinct resolve_canonical resolve_from
    normalize_local normalize_international
converges = refl

-- The call that merges the two leads.
resolve_lead_by_aliases-Evolves_example :
    Evolves
      (codes "w")
      two_leads
      (resolve_lead_by_aliases identity identity
        (codes "w")
        9
        (some 7)
        (codes "n")
        by_both
        two_leads).1
resolve_lead_by_aliases-Evolves_example =
    resolve_lead_by_aliases-Evolves identity identity (codes "w") 9 (some 7) (codes "n") by_both
      two_leads

-- A number of the state of Rio Grande do Sul, written without the 9.
mobile_spellings_example : normalize_phone (codes "51 9584-9212") ≡ some (codes "+5551995849212")
unfolding is_space trim_start
mobile_spellings_example =
    mobile_spellings 53 49 (codes "95849212") (codes "51 9584-9212") refl refl
      (inl (inr (refl, inl refl)))

normalize_phone_shape_example :
    (digits : Text) × (codes "+5551995849212" ≡ b'+' ∷ digits)
    × AllDigits digits
    × (length digits ≢ 0)
normalize_phone_shape_example =
    normalize_phone_shape (codes "51 9584-9212") (codes "+5551995849212") mobile_spellings_example

human_format : normalize_phone (codes "(51) 9584-9212") ≡ some (codes "+5551995849212")
unfolding normalize_phone normalize_international normalize_local is_space trim_start
human_format = refl

abbrev merged : ResolveResult
merged = record {
  lead_id = codes "e";
  was_created = false;
  merge_executed = true;
  merged_lead_ids = codes "p" ∷ [];
}

resolve_lead_by_aliases-Owns_example :
    (resolved : List Resolved) × (hash_identifiers identity identity (codes "w") by_both
      ≡ some resolved)
    × Owns
        (codes "w")
        (codes "e")
        resolved
        (resolve_lead_by_aliases identity identity
          (codes "w")
          9
          (some 7)
          (codes "n")
          by_both
          two_leads).1.aliases
unfolding resolve_lead_by_aliases is_space text_eq distinct resolve_canonical resolve_from
    normalize_local normalize_international
resolve_lead_by_aliases-Owns_example =
    resolve_lead_by_aliases-Owns identity identity (codes "w") 9 (some 7) (codes "n") by_both
      two_leads merged refl
