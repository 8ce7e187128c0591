-- ===== src/Robots/Policy.antt =====
-- `RobotsPolicy`. What the code asks of Python's strings and regular expressions is a parameter:
-- how a line is cut into a key and a value (`read`, with the key in lower case and both stripped),
-- and whether a pattern matches a path (`matches`).
pub mod Precedence
use ujin.Prelude.{
  Bool, List, Option, String, [], false, if◌then◌else◌, ltb, none, some, str_eq, true, ℕ, ◌&&◌,
  ◌++◌, ◌∷◌,
}
use ujin.Prelude.Dict.{Dict, lookup, insert}
use ujin.Float.{Float}

-- what a line of the file is once its comment is cut off
pub data Line : Type 0 where
  blank : Line
  other : Line
  user_agent : String → Line
  allow : String → Line
  disallow : String → Line
  -- the value of a Crawl-delay, where `float` reads one
  crawl_delay : Option Float → Line
  sitemap : String → Line

abbrev pub Rule : Type 0
Rule = Bool × String

pub record RobotsPolicy : Type 0 where
  pub rules : Dict (List Rule)
  pub delays : Dict Float
  pub sitemaps : List String

-- the locals of `_parse` and the policy
pub record Parsing : Type 0 where
  pub policy : RobotsPolicy
  pub current_agents : List String
  pub in_directives : Bool

unfoldable pub rules_of : String → Dict (List Rule) → List Rule
rules_of agent rules = elim (lookup agent rules) [ none ↦ [] | some rs ↦ rs ]

-- for a in current_agents: self._rules[a].append(rule)
unfoldable pub add_rule : Rule → List String → Dict (List Rule) → Dict (List Rule)
unfolding rules_of
add_rule rule [] rules = rules
add_rule rule (a ∷ agents) rules =
    add_rule rule agents (insert a (rules_of a rules ++ (rule ∷ [])) rules)

-- for a in current_agents: self._delays[a] = delay
set_delay : Float → List String → Dict Float → Dict Float
set_delay delay [] delays = delays
set_delay delay (a ∷ agents) delays = set_delay delay agents (insert a delay delays)

new_group : String → Dict (List Rule) → Dict (List Rule)
new_group agent rules = elim (lookup agent rules) [ none ↦ insert agent [] rules | some _ ↦ rules ]

-- Without a current agent a directive is passed over, `in_directives` included.
directive : (RobotsPolicy → RobotsPolicy) → Parsing → Parsing
directive change s = elim s.current_agents [
  | [] ↦ s
  | a ∷ rest ↦ record s { policy = change s.policy; in_directives = true }
]

-- one round of the loop of `_parse`; an agent is in lower case
unfoldable pub parse_line : Line → Parsing → Parsing
unfolding new_group directive set_delay add_rule
parse_line blank s = record s { current_agents = []; in_directives = false }
parse_line other s = s
parse_line (user_agent agent) s =
    let before : List String = (if s.in_directives then [] else s.current_agents) in
    record s {
      policy = record s.policy { rules = new_group agent s.policy.rules };
      current_agents = before ++ (agent ∷ []);
      in_directives = false;
    }
parse_line (allow val) s =
    directive (λ p. record p { rules = add_rule (true, val) s.current_agents p.rules }) s
parse_line (disallow val) s =
    directive
      (λ p.
        if str_eq val ""
        then p
        else record p { rules = add_rule (false, val) s.current_agents p.rules })
      s
parse_line (crawl_delay none) s = directive (λ p. p) s
parse_line (crawl_delay (some delay)) s =
    directive (λ p. record p { delays = set_delay delay s.current_agents p.delays }) s
parse_line (sitemap val) s = record s {
  policy = record s.policy { sitemaps = s.policy.sitemaps ++ (val ∷ []) };
}

unfoldable pub parse_lines : List Line → Parsing → Parsing
parse_lines [] s = s
parse_lines (line ∷ rest) s = parse_lines rest (parse_line line s)

empty_policy : RobotsPolicy
empty_policy = record { rules = []; delays = []; sitemaps = [] }

-- the constructor; `read` gives the lines of the text
unfoldable pub parse : (String → List Line) → String → RobotsPolicy
unfolding empty_policy
parse read text =
    (parse_lines (read text)
      (record { policy = empty_policy; current_agents = []; in_directives = false })).policy

-- the group of the agent, or that of `*`
unfoldable pub group : String → RobotsPolicy → Option (List Rule)
group agent p = elim (lookup agent p.rules) [ some rs ↦ some rs | none ↦ lookup "*" p.rules ]

-- The loop of `is_allowed`; no match has been found yet where `best` is `none`. A rule's length is
-- that of its pattern; the empty pattern matches, with length 0.
module _ (matches : String → String → Bool) (size : String → ℕ) where
  unfoldable pub is_match : String → Rule → Bool
  is_match path rule = if str_eq rule.1 "" then true else matches rule.1 path

  unfoldable pub longer : Rule → Option Rule → Bool
  longer rule none = true
  longer rule (some best) = ltb (size best.1) (size rule.1)

  unfoldable pub best_rule : String → List Rule → Option Rule → Option Rule
  unfolding is_match longer
  best_rule path [] best = best
  best_rule path (rule ∷ rest) best =
      if is_match path rule && longer rule best
      then best_rule path rest (some rule)
      else best_rule path rest best

  -- no rule that matches leaves True
  unfoldable pub verdict : Option Rule → Bool
  verdict none = true
  verdict (some rule) = rule.0

  unfoldable pub is_allowed : String → String → RobotsPolicy → Bool
  unfolding verdict
  is_allowed path agent p = elim (group agent p) [
    | none ↦ true
    | some rs ↦ verdict (best_rule path rs none)
  ]

unfoldable pub delay_for : String → RobotsPolicy → Option Float
delay_for agent p = elim (lookup agent p.delays) [ some d ↦ some d | none ↦ lookup "*" p.delays ]
