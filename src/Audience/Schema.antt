-- ===== src/Audience/Schema.antt =====
-- `AudienceQueryDefinitionSchema` of apps/edge/src/lib/audience.ts: the check of a stored query. A
-- schema ignores keys it does not name, and an optional key may be missing or undefined.
use globaltracker.Prelude.{
  ◌≡◌, refl, ap, ◌∙◌, Bool, true, false, ◌&&◌, ◌||◌, List, [], ◌∷◌, Option, none, some, Text, codes,
  text_eq, if◌then◌else◌, all,
}
use globaltracker.Payload.Json.{Json, Items, Fields}
use globaltracker.Audience.Types.{Condition, QueryDefinition}

-- `value[key]`.
unfoldable pub get : Text → Fields → Json
get key Fields.end = Json.undefined
get key (Fields.field k v fs) = if text_eq k key then v else get key fs

infixl 1 ◌>>=◌
abbrev pub ◌>>=◌ : {A B : Type 0} → Option A → (A → Option B) → Option B
none >>= f = none
some a >>= f = f a

-- `z.string().optional()` and `z.boolean().optional()`.
abbrev pub optional_string : Json → Option (Option Text)
optional_string Json.undefined = some none
optional_string (Json.str s) = some (some s)
optional_string _ = none

abbrev pub optional_boolean : Json → Option (Option Bool)
optional_boolean Json.undefined = some none
optional_boolean (Json.bool b) = some (some b)
optional_boolean _ = none

abbrev pub is_some {ℓ} : {A : Type ℓ} → Option A → Bool
is_some none = false
is_some (some a) = true

-- The refinement: at least one field.
unfoldable pub has_field : Condition → Bool
has_field c =
    is_some c.stage_eq
    || is_some c.stage_not
    || is_some c.stage_gte
    || is_some c.stage
    || is_some c.not_stage
    || is_some c.is_icp
    || is_some c.purchased

unfoldable pub refined : Condition → Option Condition
unfolding has_field
refined c = if has_field c then some c else none

unfoldable pub parse_condition : Json → Option Condition
unfolding get
parse_condition (Json.obj fs) = do
  stage_eq ← optional_string (get (codes "stage_eq") fs)
  stage_not ← optional_string (get (codes "stage_not") fs)
  stage_gte ← optional_string (get (codes "stage_gte") fs)
  stage ← optional_string (get (codes "stage") fs)
  not_stage ← optional_string (get (codes "not_stage") fs)
  is_icp ← optional_boolean (get (codes "is_icp") fs)
  purchased ← optional_boolean (get (codes "purchased") fs)
  refined record {
    stage_eq = stage_eq;
    stage_not = stage_not;
    stage_gte = stage_gte;
    stage = stage;
    not_stage = not_stage;
    is_icp = is_icp;
    purchased = purchased;
  }
parse_condition _ = none

unfoldable pub parse_conditions : Items → Option (List Condition)
parse_conditions Items.nil = some []
parse_conditions (Items.cons j js) = do
  c ← parse_condition j
  cs ← parse_conditions js
  some (c ∷ cs)

-- `z.array(...).min(1)`.
abbrev pub not_empty : List Condition → Option (List Condition)
not_empty [] = none
not_empty (c ∷ cs) = some (c ∷ cs)

unfoldable pub parse_all : Json → Option (List Condition)
unfolding parse_conditions
parse_all (Json.arr js) = parse_conditions js >>= not_empty
parse_all _ = none

-- `z.literal('builder')`.
abbrev pub parse_type : Json → Option Text
parse_type (Json.str s) = if text_eq s (codes "builder") then some s else none
parse_type _ = none

unfoldable pub parse_definition : Json → Option QueryDefinition
unfolding get
parse_definition (Json.obj fs) = do
  type ← parse_type (get (codes "type") fs)
  launch_id ← optional_string (get (codes "launch_id") fs)
  launch_public_id ← optional_string (get (codes "launch_public_id") fs)
  conditions ← parse_all (get (codes "all") fs)
  some
      record { launch_id = launch_id; launch_public_id = launch_public_id; conditions = conditions }
parse_definition _ = none

-- A definition as the JSON value that an author writes.
abbrev pub text_value : Option Text → Json
text_value none = Json.undefined
text_value (some s) = Json.str s

abbrev pub bool_value : Option Bool → Json
bool_value none = Json.undefined
bool_value (some b) = Json.bool b

unfoldable pub condition_value : Condition → Json
condition_value c = Json.obj (
    Fields.field (codes "stage_eq") (text_value c.stage_eq) (
      Fields.field (codes "stage_not") (text_value c.stage_not) (
        Fields.field (codes "stage_gte") (text_value c.stage_gte) (
          Fields.field (codes "stage") (text_value c.stage) (
            Fields.field (codes "not_stage") (text_value c.not_stage) (
              Fields.field (codes "is_icp") (bool_value c.is_icp)
                (Fields.field (codes "purchased") (bool_value c.purchased) Fields.end)))))))

unfoldable pub condition_values : List Condition → Items
condition_values [] = Items.nil
condition_values (c ∷ cs) = Items.cons (condition_value c) (condition_values cs)

unfoldable pub definition_value : QueryDefinition → Json
definition_value q = Json.obj (
    Fields.field (codes "type") (Json.str (codes "builder")) (
      Fields.field (codes "launch_id") (text_value q.launch_id) (
        Fields.field (codes "launch_public_id") (text_value q.launch_public_id)
          (Fields.field (codes "all") (Json.arr (condition_values q.conditions)) Fields.end))))

unfoldable pub is_valid : QueryDefinition → Bool
is_valid q = is_some (not_empty q.conditions) && all has_field q.conditions

string-back : (o : Option Text) → optional_string (text_value o) ≡ some o
string-back none = refl
string-back (some s) = refl

boolean-back : (o : Option Bool) → optional_boolean (bool_value o) ≡ some o
boolean-back none = refl
boolean-back (some b) = refl

parse_condition-back :
    (c : Condition) → parse_condition (condition_value c) ≡ (if has_field c then some c else none)
unfolding parse_condition condition_value get text_eq has_field refined
parse_condition-back c =
    rw
      (
        string-back c.stage_eq,
        string-back c.stage_not,
        string-back c.stage_gte,
        string-back c.stage,
        string-back c.not_stage,
        boolean-back c.is_icp,
        boolean-back c.purchased,
      )
      refl

bind_if :
    {A B : Type 0} (b : Bool) (a : A) (f : A → Option B)
    → ((if b then some a else none) >>= f) ≡ (if b then f a else none)
bind_if true a f = refl
bind_if false a f = refl

if_and :
    {A : Type 0} (a b : Bool) (x y : A)
    → (if a then (if b then x else y) else y) ≡ (if a && b then x else y)
if_and true b x y = refl
if_and false b x y = refl

parse_conditions-back :
    (cs : List Condition)
    → parse_conditions (condition_values cs) ≡ (if all has_field cs then some cs else none)
unfolding parse_conditions condition_values
parse_conditions-back [] = refl
parse_conditions-back (c ∷ cs) =
    rw
      (
        parse_condition-back c,
        parse_conditions-back cs,
        bind_if (has_field c) c
            (λ d. (if all has_field cs then some cs else none) >>= (λ ds. some (d ∷ ds))),
        bind_if (all has_field cs) cs (λ ds. some (c ∷ ds)),
      )
      (if_and (has_field c) (all has_field cs) (some (c ∷ cs)) none)

parse_all-back :
    (cs : List Condition)
    → parse_all (Json.arr (condition_values cs))
      ≡ (if is_some (not_empty cs) && all has_field cs then some cs else none)
unfolding parse_all condition_values parse_conditions
parse_all-back [] = refl
parse_all-back (c ∷ cs) =
    ap (λ o. o >>= not_empty) (parse_conditions-back (c ∷ cs))
    ∙ bind_if (all has_field (c ∷ cs)) (c ∷ cs) not_empty

-- Reading the JSON value of a definition gives the definition back where it has a condition and
-- each of its conditions has a field, and fails otherwise.
pub parse_definition-back :
    (q : QueryDefinition)
    → parse_definition (definition_value q) ≡ (if is_valid q then some q else none)
unfolding parse_definition definition_value get text_eq is_valid
parse_definition-back q =
    rw (string-back q.launch_id, string-back q.launch_public_id, parse_all-back q.conditions)
      (bind_if (is_valid q) q.conditions (λ cs. some (record {
        launch_id = q.launch_id;
        launch_public_id = q.launch_public_id;
        conditions = cs;
      })))
