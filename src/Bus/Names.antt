-- ===== src/Bus/Names.antt =====
-- src/ivy.c: the names of the agents, as `IvyGetApplicationList` puts them into its array.
use libivy.Base.{
  ◌<◌, ◌≡◌, sym, ap, ◌∙◌, false, List, [], ◌∷◌, ◌++◌, append_assoc, append-nil, if◌then◌else◌, ltb,
  Bytes, length, length-append, arith, Bool-cases, inl, inr,
}
use libivy.Registry.{IvyClient}
use libivy.Interval.{Run, returns, faults}
use libivy.Bus.Applications.{applist_size, strcat, append_names, get_application_list}

-- the names, with the separator behind each
abbrev pub names_with : Bytes → List IvyClient → Bytes
names_with sep [] = []
names_with sep (i ∷ clients) = i.app_name ++ (sep ++ names_with sep clients)

-- a text that is to stand in the array, with its NUL
abbrev pub in_applist : Bytes → Run Bytes
in_applist text = if ltb (length text) applist_size then returns text else faults

-- what does not stand in the array does not with more behind it
in_applist-faults :
    (a b : Bytes) → ltb (length a) applist_size ≡ false → in_applist (a ++ b) ≡ faults
in_applist-faults a b h = let l = length-append a b in ground arith

strcat-fits : (text more : Bytes) → strcat text more ≡ in_applist (text ++ more)
unfolding strcat
strcat-fits text more = let l = length-append text more in ground arith

append_names-fits :
    (sep : Bytes) (clients : List IvyClient) (text : Bytes)
    → length text < applist_size
    → append_names sep clients text ≡ in_applist (text ++ names_with sep clients)
unfolding append_names
append_names-fits sep [] text h = rw (append-nil text) (ground arith)
append_names-fits sep (i ∷ clients) text h =
    let named = text ++ i.app_name in
    let later = sep ++ names_with sep clients in
    rw (strcat-fits text i.app_name) (elim (Bool-cases (ltb (length named) applist_size)) [
      | inl e ↦ rw e (
          rw (strcat-fits named sep) (elim (Bool-cases (ltb (length (named ++ sep)) applist_size)) [
            | inl f ↦ rw f (
                append_names-fits sep clients (named ++ sep) (ground arith)
                ∙ ap in_applist (
                    append_assoc named sep (names_with sep clients)
                    ∙ append_assoc text i.app_name later))
            | inr f ↦ rw f (
                sym (in_applist-faults (named ++ sep) (names_with sep clients) f)
                ∙ ap in_applist (
                    append_assoc named sep (names_with sep clients)
                    ∙ append_assoc text i.app_name later))
          ]))
      | inr e ↦ rw e (
          sym (in_applist-faults named later e)
          ∙ ap in_applist (append_assoc text i.app_name later))
    ])

-- Whatever agents are there, and whatever the separator: `IvyGetApplicationList` gives their names,
-- in their order and with the separator behind each, if that has fewer than 4096 bytes, and writes
-- outside of its array if not.
pub get_application_list-bounded :
    (sep : Bytes) (clients : List IvyClient)
    → get_application_list sep clients ≡ (
        if ltb (length (names_with sep clients)) applist_size
        then returns (names_with sep clients)
        else faults)
unfolding get_application_list
get_application_list-bounded sep clients = append_names-fits sep clients [] (omega arith)
