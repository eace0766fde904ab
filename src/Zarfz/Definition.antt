-- ===== src/Zarfz/Definition.antt =====
-- internal/zarfz/zarf.go: `GetDefinition`, the view of a package's definition that the forms use.
-- What Zarf reads from a package is the parameter `described`: of a `v1alpha1.ZarfPackage`, the
-- fields that are looked at; a pointer to a Boolean is an Option.
use zarf_api.Prelude.{ℕ, Bool, true, not, Option, none, some, List, [], Text, map}
use zarf_api.Zarfz.{no_cache_path, no_package, ok}
use zarf_api.Zarfz.Packaging.{
  Eff, ◌>>=◌, lift, perform, or_error, Packager, no_filter, cluster_options, get_package,
}

pub record ZarfVariable : Type 0 where
  pub name : Text
  pub default : Text
  pub description : Text
  pub sensitive : Bool
  pub prompt : Bool

pub record ZarfChart : Type 0 where
  pub name : Text
  pub namespace : Text
  pub version : Text

pub record ZarfComponent : Type 0 where
  pub name : Text
  pub description : Text
  pub required : Option Bool
  pub default : Bool
  pub group : Text
  pub charts : List ZarfChart

pub record ZarfPackage : Type 0 where
  pub name : Text
  pub version : Text
  pub description : Text
  pub architecture : Text
  pub kind : Text
  pub variables : List ZarfVariable
  pub components : List ZarfComponent

pub record VariableInfo : Type 0 where
  pub name : Text
  pub default : Text
  pub description : Text
  pub sensitive : Bool
  pub prompt : Bool

pub record ChartInfo : Type 0 where
  pub name : Text
  pub namespace : Text
  pub version : Text

pub record ComponentInfo : Type 0 where
  pub name : Text
  pub description : Text
  pub optional : Bool
  pub default : Bool
  pub group : Text
  pub charts : List ChartInfo

pub record DefinitionInfo : Type 0 where
  pub name : Text
  pub version : Text
  pub description : Text
  pub architecture : Text
  pub kind : Text
  pub variables : List VariableInfo
  pub components : List ComponentInfo

-- `c.Required == nil || !*c.Required`
abbrev pub is_optional : Option Bool → Bool
is_optional none = true
is_optional (some required) = not required

unfoldable pub variable_info : ZarfVariable → VariableInfo
variable_info v = record {
  name = v.name;
  default = v.default;
  description = v.description;
  sensitive = v.sensitive;
  prompt = v.prompt;
}

unfoldable pub chart_info : ZarfChart → ChartInfo
chart_info ch = record { name = ch.name; namespace = ch.namespace; version = ch.version }

unfoldable pub component_info : ZarfComponent → ComponentInfo
component_info c = record {
  name = c.name;
  description = c.description;
  optional = is_optional c.required;
  default = c.default;
  group = c.group;
  charts = map chart_info c.charts;
}

unfoldable pub definition_info : ZarfPackage → DefinitionInfo
definition_info pkg = record {
  name = pkg.name;
  version = pkg.version;
  description = pkg.description;
  architecture = pkg.architecture;
  kind = pkg.kind;
  variables = map variable_info pkg.variables;
  components = map component_info pkg.components;
}

-- `GetDefinition`
unfoldable pub get_definition : Packager → (ℕ → ZarfPackage) → Text → Eff DefinitionInfo
get_definition zarf described source = do
  cache ← lift (or_error no_cache_path zarf.absolute_cache_path)
  pkg ←
      perform (get_package none source [] (cluster_options zarf cache no_filter)) zarf.handed
        no_package
  lift (ok (definition_info (described pkg)))
