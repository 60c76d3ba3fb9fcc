-- ===== src/Shared/Taxonomy/Definitions.antt =====
-- The documentation tables of src/evidence_engine/domain/shared/taxonomy.py and `definition_of`.
use oratoria_engine.Prelude.{String, List, [], ◌∷◌}
use oratoria_engine.Shared.Provenance.{audio, video}
use oratoria_engine.Shared.Taxonomy.{
  DetectionBasis, EventDefinition, EventPriority, SpeechEventType, VisualEventType, acoustic,
  cut_off, face_visibility_loss, false_start, filled_pause, gaze_away_from_camera,
  gaze_toward_camera, geometric, insufficient_framing, insufficient_lighting, lexical_contextual,
  lexical_filler, p0, p1, posture_deviation, prolongation, repetition, repetitive_hand_movement,
  repetitive_torso_movement, self_repair, self_touch, silent_pause, speech_value, temporal,
  unintelligible, visual_value,
}

-- `_speech`
abbrev speech :
    SpeechEventType
    → EventPriority
    → DetectionBasis
    → String
    → String
    → String
    → List String
    → EventDefinition
speech event_type priority basis display_name_es definition_es positive_example_es negative =
    record {
      identifier = speech_value event_type;
      modality = audio;
      priority = priority;
      basis = basis;
      display_name_es = display_name_es;
      definition_es = definition_es;
      positive_example_es = positive_example_es;
      negative_examples_es = negative;
    }

-- `_visual`
abbrev visual :
    VisualEventType → EventPriority → String → String → String → List String → EventDefinition
visual event_type priority display_name_es definition_es positive_example_es negative = record {
  identifier = visual_value event_type;
  modality = video;
  priority = priority;
  basis = geometric;
  display_name_es = display_name_es;
  definition_es = definition_es;
  positive_example_es = positive_example_es;
  negative_examples_es = negative;
}

unfoldable pub speech_definition : SpeechEventType → EventDefinition
speech_definition filled_pause =
    speech filled_pause p0 acoustic "Pausa llena"
      "Vocalizacion sostenida sin contenido lexico que ocupa el lugar de una pausa. Se decide por el sonido y su duracion, no por como el reconocedor la haya escrito: el mismo sonido sale transcrito como 'eh', 'he', 'e' o 'y' segun el contexto."
      "«El objetivo del proyecto eeeh consiste en...»"
      ("Una conjuncion 'y' realmente pronunciada y breve entre dos sintagmas."
        ∷ "El alargamiento de la vocal final de una palabra con contenido: eso es una prolongacion, no una pausa llena."
        ∷ [])
speech_definition lexical_filler =
    speech lexical_filler p0 lexical_contextual "Muletilla lexica"
      "Palabra o locucion existente en el idioma usada como apoyo de hesitacion en vez de por su significado. Solo cuenta como muletilla cuando el rol contextual es 'filler'; si aporta significado o estructura el discurso se anota con su rol correspondiente y NO se cuenta como defecto."
      "«Entonces este... pasamos al siguiente punto.» ('este' sin referente)"
      ("«Este resultado contradice la hipotesis.» ('este' es demostrativo: rol semantico)."
        ∷ "«O sea, lo que quiero decir es otra cosa.» reformulando de verdad: rol marcador del discurso."
        ∷ [])
speech_definition repetition =
    speech repetition p0 lexical_contextual "Repeticion"
      "Una o mas palabras contiguas repetidas sin que la repeticion aporte contenido nuevo ni enfasis retorico deliberado."
      "«Vamos a a analizar los datos.»"
      ("Repeticion con funcion enfatica marcada por prosodia: «Es muy, muy importante.»"
        ∷ "Repeticion separada por una reformulacion: eso es autocorreccion." ∷ [])
speech_definition false_start =
    speech false_start p0 lexical_contextual "Falso inicio"
      "Un fragmento de enunciado que se abandona antes de completarse y se sustituye por otro que empieza de nuevo, sin corregir el anterior."
      "«Los resultados mues... En el capitulo tres explico la metodologia.»"
      ("Una pausa larga en mitad de una oracion que despues SI se completa: eso es pausa silenciosa."
        ∷ [])
speech_definition self_repair =
    speech self_repair p0 lexical_contextual "Autocorreccion"
      "El hablante interrumpe lo que dice y lo reemplaza por una version corregida del mismo contenido. Se distingue del falso inicio en que aqui SI hay relacion entre lo abandonado y lo que sigue."
      "«La muestra fue de treinta... perdon, de trescientos participantes.»"
      ("Un cambio de tema sin relacion con lo anterior: eso es falso inicio." ∷ [])
speech_definition cut_off =
    speech cut_off p0 acoustic "Truncamiento"
      "Una palabra interrumpida antes de terminarse, tipicamente con corte glotal audible."
      "«El resulta— el hallazgo principal es...»"
      ("Una palabra corta pronunciada completa que suena parecida a un fragmento." ∷ [])
speech_definition prolongation =
    speech prolongation p0 acoustic "Alargamiento"
      "Estiramiento anomalo de un segmento dentro de una palabra con contenido, por encima de la duracion tipica de ese segmento para el hablante."
      "«La metodologiiiia que empleamos...»"
      ("Alargamiento con funcion enfatica o de enumeracion."
        ∷ "Una vocalizacion aislada sin palabra que la sostenga: eso es pausa llena." ∷ [])
speech_definition silent_pause =
    speech silent_pause p0 temporal "Pausa silenciosa"
      "Intervalo sin voz por encima del umbral configurado. El umbral es versionado y configurable (FR-015): no es una constante del idioma, asi que cambiarlo cambia la version de configuracion, no el codigo."
      "Silencio de 1,8 s entre dos oraciones con el umbral en 700 ms."
      ("La pausa respiratoria breve por debajo del umbral."
        ∷ "El silencio anterior al inicio del habla y el posterior a su final." ∷ [])
speech_definition unintelligible =
    speech unintelligible p0 acoustic "Fragmento ininteligible"
      "Tramo con voz cuyo contenido no puede determinarse. Se marca; nunca se reconstruye. US-002 lo exige de forma explicita: los fragmentos inciertos se marcan en vez de inventarse."
      "Un tramo de 900 ms tapado por ruido de la sala."
      ("Un tramo que el anotador SI entiende aunque el modelo falle: eso es un error del modelo, no un fragmento ininteligible."
        ∷ [])

unfoldable pub visual_definition : VisualEventType → EventDefinition
visual_definition gaze_toward_camera =
    visual gaze_toward_camera p0 "Mirada hacia la camara"
      "La direccion estimada de la mirada cae dentro del cono calibrado que apunta a la camara. Es una ESTIMACION a partir de geometria facial: §5 prohibe presentarla como seguimiento ocular de grado hardware."
      "El rostro y la mirada orientados al lente durante 4 s seguidos."
      ("Cabeza orientada al frente con la mirada claramente desviada: la orientacion de cabeza no es mirada."
        ∷ [])
visual_definition gaze_away_from_camera =
    visual gaze_away_from_camera p0 "Mirada fuera de la camara"
      "La direccion estimada de la mirada cae fuera del cono calibrado, con la direccion de salida registrada cuando puede estimarse."
      "Mirada dirigida hacia abajo, a los apuntes, durante 6 s."
      ("Perdida de deteccion del rostro: eso es perdida de visibilidad, no mirada desviada." ∷ [])
visual_definition face_visibility_loss =
    visual face_visibility_loss p0 "Perdida de visibilidad del rostro"
      "El rostro deja de ser detectable con la confianza minima requerida. Es una condicion de calidad, y su consecuencia es que los indicadores dependientes se marcan como no disponibles con motivo, nunca en cero."
      "El hablante se gira por completo hacia la pantalla proyectada."
      ("Rostro visible pero mal iluminado: eso es iluminacion insuficiente." ∷ [])
visual_definition insufficient_lighting =
    visual insufficient_lighting p0 "Iluminacion insuficiente"
      "La luminancia de la region facial cae por debajo del umbral que hace fiables las estimaciones geometricas."
      "Contraluz de ventana que deja el rostro en sombra."
      ("Escena oscura con el rostro correctamente iluminado." ∷ [])
visual_definition insufficient_framing =
    visual insufficient_framing p0 "Encuadre insuficiente"
      "El encuadre no contiene la region corporal que un indicador necesita: sin hombros no hay postura, sin manos no hay gesto."
      "Plano cerradisimo que corta el encuadre por encima de los hombros."
      ("Plano amplio y correcto con el hablante lejos pero completo." ∷ [])
visual_definition posture_deviation =
    visual posture_deviation p0 "Desviacion postural"
      "Desviacion de la pose respecto de la postura de referencia capturada en la calibracion del propio hablante. Es relativa a su linea base, no a una postura ideal universal."
      "Inclinacion sostenida del torso 20 grados respecto de la calibracion."
      ("Un cambio de postura unico y estable: eso es una nueva linea base, no una desviacion sostenida."
        ∷ [])
visual_definition repetitive_torso_movement =
    visual repetitive_torso_movement p0 "Movimiento repetitivo del torso"
      "Oscilacion del torso con periodicidad detectable sostenida en el tiempo. Se reporta el movimiento y su frecuencia; §5 prohibe etiquetarlo como nerviosismo."
      "Balanceo lateral regular de ~0,8 Hz durante 12 s."
      ("Un desplazamiento unico para acercarse a la pizarra." ∷ [])
visual_definition self_touch =
    visual self_touch p1 "Autocontacto visible"
      "Contacto sostenido de la mano con el rostro, el cabello, el cuello o la ropa. FR-022 lo condiciona: solo se emite cuando el encuadre y la confianza superan sus umbrales; en caso contrario no se emite nada."
      "Mano apoyada en la nuca durante 3 s con manos y rostro visibles."
      ("Mano que pasa por delante del rostro sin contacto." ∷ "Gesto ilustrativo cerca de la cara."
        ∷ [])
visual_definition repetitive_hand_movement =
    visual repetitive_hand_movement p1 "Movimiento repetitivo de manos"
      "Movimiento de manos con periodicidad detectable y sin funcion ilustrativa aparente en el discurso."
      "Clic repetido de un boligrafo durante 8 s."
      ("Gesticulacion variada acompanando la explicacion." ∷ [])
